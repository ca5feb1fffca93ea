-- ===== src/Server/Shares/Creation/Links.antt =====
-- From createShare to shareDownloadURL: what a link with all three limits lets through.
use optiflow.Prelude.{
  ℕ, ◌+◌, ◌*◌, ◌<◌, ◌≤◌, ◌≡◌, refl, ◌∙◌, ap, Bool, true, Option, none, some, List, [], ◌∷◌, ◌++◌,
  arith, String, truthy, str_eq_iff, ltb, if◌then◌else◌, Eq,
}
use optiflow.Server.Shares.{
  pos, Share, StoredFile, refused, first_share, active, resolve_active_share, admit, check_share,
  check_file, check_password,
}
use optiflow.Server.Shares.Creation.{
  create_share, add_hours, hour, issue, with_expiry, expiring, with_limit, limited, with_password,
  stored, hashed,
}
use optiflow.Server.Shares.Rows.{first_share-append}

-- the product of a time.Duration does not overflow up to this number of hours
abbrev pub max_hours : ℕ
max_hours = 2562047

add_hours_lem : (now k : ℕ) → k ≤ max_hours → add_hours now k ≡ now + k * hour
unfolding add_hours
add_hours_lem now k le = ground arith

module _ {U H : Type 0} ⦃e : Eq U⦄ (hash : String → Option H) (verify : H → String → Bool)
    (file_of : U → Option StoredFile) (sign : String → Option String) where
  -- the row of a link with all three limits
  abbrev full : ℕ → (id user file : U) → String → H → ℕ → ℕ → Share U H
  full now id user file token h k n = record {
    id = id;
    file_id = file;
    user_id = user;
    token = token;
    password_hash = some h;
    expires_at = some (add_hours now k);
    max_downloads = some (pos n);
    download_count = 0;
  }

  create_full :
      (now : ℕ) (id user file : U) (token p : String) (h : H) (k n : ℕ) (db : List (Share U H))
      → 0 < k
      → 0 < n
      → truthy p ≡ true
      → hash p ≡ some h
      → (create_share hash now id user file true
          (some token)
          (record {
            expires_in_hours = some (pos k);
            password = some p;
            max_downloads = some (pos n);
          })
          db).0
        ≡ db ++ full now id user file token h k n ∷ []
  unfolding create_share issue with_expiry expiring with_limit limited with_password stored hashed
  create_full now id user file token p h k n db a b t q = ground (arith, t, q)

  admit-full :
      (t now : ℕ) (id user file : U) (token p : String) (h : H) (k n : ℕ) (db : List (Share U H))
      → 0 < n
      → k ≤ max_hours
      → first_share token db ≡ some (full now id user file token h k n)
      → (admit verify file_of sign t token (some p) db).1 ≡ (
          if ltb (now + k * hour) t
          then refused 404 "share link not found or expired"
          else (if verify h p
              then check_file verify file_of sign (file_of file)
              else refused 401 "incorrect password"))
  unfolding admit resolve_active_share active check_share check_password
  admit-full t now id user file token p h k n db a b found =
      ground (arith, found, add_hours_lem now k b)

  -- A link that createShare makes for k hours, n downloads and the password p, none of them zero or
  -- empty, under a token that no link has, with k small enough for a time.Duration. Until it is
  -- counted, a visitor at the time t with the password q is told that there is no such link if the
  -- k hours are over, else that the password is wrong if its hash is not that of q, and else gets
  -- what the file allows.
  pub create_share-admit :
      (t now : ℕ) (id user file : U) (token p q : String) (h : H) (k n : ℕ) (db : List (Share U H))
      → 0 < k
      → k ≤ max_hours
      → 0 < n
      → truthy p ≡ true
      → hash p ≡ some h
      → first_share token db ≡ none
      → (admit verify file_of sign t token
          (some q)
          (create_share hash now id user file true
            (some token)
            (record {
              expires_in_hours = some (pos k);
              password = some p;
              max_downloads = some (pos n);
            })
            db).0).1
        ≡ (if ltb (now + k * hour) t
            then refused 404 "share link not found or expired"
            else (if verify h q
                then check_file verify file_of sign (file_of file)
                else refused 401 "incorrect password"))
  create_share-admit t now id user file token p q h k n db a le b tr hashes fresh =
      let row = full now id user file token h k n in
      let found = first_share-append token db row fresh ((str_eq_iff token token).1 refl) in
      ap (λ db'. (admit verify file_of sign t token (some q) db').1)
        (create_full now id user file token p h k n db a b tr hashes)
      ∙ admit-full t now id user file token q h k n (db ++ row ∷ []) b le found
