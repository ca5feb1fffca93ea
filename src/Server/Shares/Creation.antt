-- ===== src/Server/Shares/Creation.antt =====
-- createShare and deleteShare of backend/cmd/api-svc/handlers_share.go.
pub mod Links
use optiflow.Prelude.{
  ℕ, ◌+◌, ◌-◌, ◌*◌, ◌%◌, ◌^◌, Bool, true, false, not, ◌&&◌, Option, none, some, List, [], ◌∷◌,
  String, truthy, ltb, filter, any, ◌++◌, if◌then◌else◌, Eq,
}
use optiflow.Server.Shares.{ℤ, pos, negsuc, Share}

abbrev pub is_positive : ℤ → Bool
is_positive (pos n) = ltb 0 n
is_positive (negsuc n) = false

-- `now.Add(time.Duration(hours) * time.Hour)` of a number of hours that is not negative: the
-- product is one of 64 bits with a sign
abbrev pub hour : ℕ
hour = 3600000000000

unfoldable pub add_hours : ℕ → ℕ → ℕ
add_hours now hours =
    let d = hours * hour % 2 ^ 64 in if ltb d (2 ^ 63) then now + d else now - (2 ^ 64 - d)

-- shareCreateRequest, whose fields stay nil where the body cannot be read
pub record CreateRequest : Type 0 where
  pub expires_in_hours : Option ℤ
  pub password : Option String
  pub max_downloads : Option ℤ

pub data Answer (U H : Type 0) : Type 0 where
  created : Share U H → Answer U H
  -- a status and its message
  refused : ℕ → String → Answer U H

module _ {U H : Type 0} ⦃e : Eq U⦄ where
  module _ (hash : String → Option H) where
    -- what createShare does with each of the three limits: `none` is a request refused
    with_expiry : ℕ → Option ℤ → Share U H → Option (Share U H)
    unfolding add_hours
    with_expiry now none s = some s
    with_expiry now (some (pos n)) s =
        if ltb 0 n then some (record s { expires_at = some (add_hours now n) }) else none
    with_expiry now (some (negsuc n)) s = none

    with_limit : Option ℤ → Share U H → Option (Share U H)
    with_limit none s = some s
    with_limit (some n) s =
        if is_positive n then some (record s { max_downloads = some n }) else none

    hashed : Option H → Share U H → Option (Share U H)
    hashed none s = none
    hashed (some h) s = some (record s { password_hash = some h })

    with_password : Option String → Share U H → Option (Share U H)
    unfolding hashed
    with_password none s = some s
    with_password (some p) s = if truthy p then hashed (hash p) s else some s

    stored : Option (Share U H) → List (Share U H) → List (Share U H) × Answer U H
    stored none db = (db, refused 500 "could not create share")
    stored (some s) db = (db ++ s ∷ [], created s)

    limited : Option String → Option (Share U H) → List (Share U H) → List (Share U H) × Answer U H
    unfolding with_password stored
    limited password none db = (db, refused 400 "max_downloads must be positive")
    limited password (some s) db = stored (with_password password s) db

    expiring : CreateRequest → Option (Share U H) → List (Share U H) → List (Share U H) × Answer U H
    unfolding with_limit limited
    expiring req none db = (db, refused 400 "expires_in_hours must be positive")
    expiring req (some s) db = limited req.password (with_limit req.max_downloads s) db

    -- with the token that rand.Read gave, if it did not fail
    issue :
        ℕ
        → (id user file : U) → Option String
        → CreateRequest
        → List (Share U H)
        → List (Share U H) × Answer U H
    unfolding with_expiry expiring
    issue now id user file none req db = (db, refused 500 "could not create share")
    issue now id user file (some token) req db =
        expiring req
          (with_expiry now req.expires_in_hours (record {
            id = id;
            file_id = file;
            user_id = user;
            token = token;
            password_hash = none;
            expires_at = none;
            max_downloads = none;
            download_count = 0;
          }))
          db

    -- createShare, given whether the file is there and the caller's; `id` is made up by the
    -- database
    unfoldable pub create_share :
        ℕ
        → (id user file : U) → Bool
        → Option String
        → CreateRequest
        → List (Share U H)
        → List (Share U H) × Answer U H
    unfolding issue
    create_share now id user file false token req db = (db, refused 404 "file not found")
    create_share now id user file true token req db = issue now id user file token req db

  -- `Where("id = ? AND user_id = ?").Delete`, and whether a row was deleted
  is_row_of : U → U → Share U H → Bool
  is_row_of user id s = e.beq s.id id && e.beq s.user_id user

  unfoldable pub delete_share : U → U → List (Share U H) → List (Share U H) × Bool
  unfolding is_row_of
  delete_share user id db = (filter (λ s. not (is_row_of user id s)) db, any (is_row_of user id) db)
