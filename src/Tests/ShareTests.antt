-- ===== src/Tests/ShareTests.antt =====
-- The share links of the server at a concrete table, with numbers as ids and texts as hashes.
use optiflow.Prelude.{
  ℕ, ◌+◌, ◌-◌, ◌*◌, ◌≤◌, ◌≡◌, refl, true, Option, none, some, [], ◌∷◌, arith, String, str_eq, ltb,
  if◌then◌else◌, nat_eq,
}
use optiflow.Server.Shares.{
  pos, Share, StoredFile, refused, first_share, admit, settle, check_file, share_download_url,
}
use optiflow.Server.Shares.Creation.{create_share, hour}
use optiflow.Server.Shares.Creation.Links.{create_share-admit}
use optiflow.Server.Shares.Limits.{Visit, urls, urls-bounded}
use optiflow.Server.Shares.Race.{downloads_race}

-- two downloads allowed, one of them used
abbrev link : Share ℕ String
link = record {
  id = 1;
  file_id = 2;
  user_id = 7;
  token = "t";
  password_hash = none;
  expires_at = none;
  max_downloads = some (pos 2);
  download_count = 1;
}

abbrev files : ℕ → Option StoredFile
files id = some (record { is_ready = true; storage_key = "k" })

abbrev sign : String → Option String
sign key = some "u"

abbrev hash : String → Option String
hash p = some p

abbrev visit : Visit
visit = record { at = 5; token = "t"; body = none }

urls-bounded_example : urls str_eq files sign "t" (visit ∷ visit ∷ []) (link ∷ []) ≤ 2 - 1
unfolding first_share
urls-bounded_example =
    urls-bounded str_eq files sign "t" 2 (visit ∷ visit ∷ []) (link ∷ []) link refl refl

urls_tested : urls str_eq files sign "t" (visit ∷ visit ∷ []) (link ∷ []) ≡ 1
unfolding urls share_download_url
urls_tested = refl

downloads_race_example :
    let read = admit str_eq files sign 5 "t" none (link ∷ []) in
    let after = share_download_url str_eq files sign 5 "t" none (link ∷ []) in
    ((share_download_url str_eq files sign 5 "t" none after.0).1
      ≡ refused 404 "share link not found or expired")
    × (first_share "t" (settle read.0 read.1 (settle read.0 read.1 (link ∷ [])))
        ≡ some (record link { download_count = 3 }))
unfolding admit first_share
downloads_race_example =
    downloads_race str_eq files sign 5 "t" "u" none (link ∷ []) link refl refl refl

create_share-admit_example :
    (admit str_eq files sign 9 "s"
      (some "q")
      (create_share hash 4 3 7 2 true
        (some "s")
        (record {
          expires_in_hours = some (pos 24);
          password = some "p";
          max_downloads = some (pos 2);
        })
        (link ∷ [])).0).1
    ≡ (if ltb (4 + 24 * hour) 9
        then refused 404 "share link not found or expired"
        else (if str_eq "p" "q"
            then check_file str_eq files sign (files 2)
            else refused 401 "incorrect password"))
unfolding first_share
create_share-admit_example =
    create_share-admit hash str_eq files sign 9 4 3 7 2 "s" "p" "q" "p" 24 2 (link ∷ [])
      (omega arith) (omega arith) (omega arith) refl refl refl
