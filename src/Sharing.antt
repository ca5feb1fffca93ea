-- ===== src/Sharing.antt =====
-- A share link from the owner's dialog (frontend/components/files/share-dialog.tsx) through
-- createShare and shareDownloadURL (backend/cmd/api-svc and upload-svc, handlers_share.go) to the
-- visitor's page (frontend/app/share/[token]/page.tsx): the bodies of the requests between them, as
-- lib/api/shares.ts writes and the handlers read them.
use optiflow.Prelude.{
  ℕ, ◌+◌, ◌*◌, ◌<◌, ◌≤◌, ◌≡◌, ◌∙◌, ap, Bool, true, false, Option, none, some, List, [], ◌∷◌, arith,
  String, str_eq, str_eq_iff, is_blank, trim, truthy-trim, ltb, or_else, if◌then◌else◌, Eq,
}
use optiflow.Requests.Shares.{CreateShareInput}
use optiflow.Dialogs.Share as Dialog
use optiflow.Dialogs.Share.{payload}
use optiflow.Pages.PublicShare as Page
use optiflow.Pages.PublicShare.{Effect, get_share_download_url, handle_download}
use optiflow.Server.Shares.{ℤ, pos, Share, StoredFile, refused, first_share, admit, check_file}
use optiflow.Server.Shares.Creation.{CreateRequest, create_share, hour}
use optiflow.Server.Shares.Creation.Links.{max_hours, create_share-admit}

number_of : Option ℕ → Option ℤ
number_of none = none
number_of (some n) = some (pos n)

-- shareCreateRequest, decoded from the body of createShare
unfoldable pub request_of : CreateShareInput ℕ → CreateRequest
unfolding number_of
request_of p = record {
  expires_in_hours = number_of p.expires_in_hours;
  password = p.password;
  max_downloads = number_of p.max_downloads;
}

-- shareDownloadRequest, decoded from the body of getShareDownloadUrl: `{ password: password ?? ""
-- }`
unfoldable pub body_of : List Effect → Option String
body_of [] = none
body_of (get_share_download_url token password ∷ es) = some (or_else password "")
body_of (_ ∷ es) = body_of es

typed_password :
    (token : String) (v : Page.State) → body_of (handle_download token v).1 ≡ some v.password
unfolding body_of handle_download
typed_password token v = ground (arith, str_eq_iff v.password "")

request_full :
    (number : String → ℕ) (s : Dialog.State) (k n : ℕ)
    → str_eq s.expires_in "never" ≡ false
    → number s.expires_in ≡ k
    → is_blank s.password ≡ false
    → is_blank s.max_downloads ≡ false
    → number s.max_downloads ≡ n
    → request_of (payload number s) ≡ record {
      expires_in_hours = some (pos k);
      password = some (trim s.password);
      max_downloads = some (pos n);
    }
unfolding request_of payload
request_full number s k n a b c d e =
    ground (arith, a, b, c, d, e, truthy-trim s.password, truthy-trim s.max_downloads)

module _ {U H : Type 0} ⦃e : Eq U⦄ (number : String → ℕ) (hash : String → Option H)
    (verify : H → String → Bool) (file_of : U → Option StoredFile)
    (sign : String → Option String) where
  -- A link that createShare makes of what the dialog sends, with an expiry of k hours, a password
  -- and a limit filled in, under a new token. Until it is counted, a visitor who clicks "Download"
  -- at the time t is told that there is no such link if the k hours are over, else that the
  -- password is wrong unless the text in the page's field verifies against the hash of the dialog's
  -- password without the blanks at its ends, and else gets what the file allows.
  pub link-download :
      (t now : ℕ) (id user file : U) (token : String) (h : H) (k n : ℕ) (db : List (Share U H))
      → (s : Dialog.State) (v : Page.State) → str_eq s.expires_in "never" ≡ false
      → number s.expires_in ≡ k
      → 0 < k
      → k ≤ max_hours
      → is_blank s.password ≡ false
      → hash (trim s.password) ≡ some h
      → is_blank s.max_downloads ≡ false
      → number s.max_downloads ≡ n
      → 0 < n
      → first_share token db ≡ none
      → (admit verify file_of sign t token
          (body_of (handle_download token v).1)
          (create_share hash now id user file true
            (some token)
            (request_of (payload number s))
            db).0).1
        ≡ (if ltb (now + k * hour) t
            then refused 404 "share link not found or expired"
            else (if verify h v.password
                then check_file verify file_of sign (file_of file)
                else refused 401 "incorrect password"))
  link-download t now id user file token h k n db s v never hours k0 km pw hashes mx limit n0
        fresh =
      ap
        (λ b.
          (admit verify file_of sign t token b
            (create_share hash now id user file true (some token) (request_of (payload number s))
              db).0).1)
        (typed_password token v)
      ∙ ap
          (λ r.
            (admit verify file_of sign t token (some v.password)
              (create_share hash now id user file true (some token) r db).0).1)
          (request_full number s k n never hours pw mx limit)
      ∙ create_share-admit hash verify file_of sign t now id user file token (trim s.password)
          v.password h k n db k0 km n0 (ground (arith, pw, truthy-trim s.password)) hashes fresh
