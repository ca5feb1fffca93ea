-- ===== src/Server/Shares.antt =====
-- backend/cmd/api-svc/handlers_share.go and backend/cmd/upload-svc/handlers_share.go: the table of
-- share links, how a link comes into it, and what a visitor of the link gets.
--
-- `U` is the type of uuids, `H` that of password hashes; a time is the number of nanoseconds since
-- the start of the year 1. Hashing, the random token, the table of files and the signing of a
-- URL are arguments, and the failures of the database are left out.
pub mod Creation
pub mod Metadata
pub mod Rows
pub mod Limits
pub mod Race
use optiflow.Prelude.{
  ℕ, zero, suc, ◌+◌, ◌-◌, ◌*◌, ◌%◌, ◌^◌, Bool, true, false, not, ◌&&◌, Option, none, some, List, [],
  ◌∷◌, String, str_eq, truthy, ltb, leb, map, filter, any, is_some, ◌++◌, if◌then◌else◌, Eq,
}

-- Go's int, with `negsuc n` for -(n + 1)
pub data ℤ : Type 0 where
  pos negsuc : ℕ → ℤ

-- `count >= limit`
abbrev pub reaches : ℕ → ℤ → Bool
reaches count (pos n) = leb n count
reaches count (negsuc n) = true

-- models.Share, without `created_at`
pub record Share (U H : Type 0) : Type 0 where
  pub id : U
  pub file_id : U
  pub user_id : U
  pub token : String
  pub password_hash : Option H
  pub expires_at : Option ℕ
  pub max_downloads : Option ℤ
  pub download_count : ℕ

-- What the handler of a download reads of the row of a file: whether its status is "ready".
pub record StoredFile : Type 0 where
  pub is_ready : Bool
  pub storage_key : String

pub data Download : Type 0 where
  url : String → Download
  refused : ℕ → String → Download

-- `time.Now().After(*share.ExpiresAt)`
abbrev pub has_expired : ℕ → Option ℕ → Bool
has_expired now none = false
has_expired now (some t) = ltb t now

abbrev pub is_used_up : ℕ → Option ℤ → Bool
is_used_up count none = false
is_used_up count (some limit) = reaches count limit

module _ {U H : Type 0} ⦃e : Eq U⦄ where
  -- `db.Where("token = ?").First`
  unfoldable pub first_share : String → List (Share U H) → Option (Share U H)
  first_share token [] = none
  first_share token (s ∷ ss) = if str_eq s.token token then some s else first_share token ss

  active : ℕ → Option (Share U H) → Option (Share U H)
  active now none = none
  active now (some s) =
      if has_expired now s.expires_at
      then none
      else (if is_used_up s.download_count s.max_downloads then none else some s)

  unfoldable pub resolve_active_share : ℕ → String → List (Share U H) → Option (Share U H)
  unfolding active first_share
  resolve_active_share now token db = active now (first_share token db)

  module _ (verify : H → String → Bool) (file_of : U → Option StoredFile)
      (sign : String → Option String) where
    -- `body` is the password in the request, or none where its JSON cannot be read
    check_password : Option H → Option String → Option Download
    check_password none body = none
    check_password (some h) none = some (refused 400 "invalid request body")
    check_password (some h) (some p) =
        if verify h p then none else some (refused 401 "incorrect password")

    signed : Option String → Download
    signed none = refused 500 "could not build download url"
    signed (some u) = url u

    pub check_file : Option StoredFile → Download
    unfolding signed
    check_file none = refused 404 "shared file no longer exists"
    check_file (some f) =
        if f.is_ready
        then signed (sign f.storage_key)
        else refused 409 "file is not ready for download"

    check_share : Share U H → Option String → Download
    unfolding check_password check_file
    check_share s body = elim (check_password s.password_hash body) [
      | some d ↦ d
      | none ↦ check_file (file_of s.file_id)
    ]

    -- shareDownloadURL up to the URL: what it reads, with the id of the share that it found
    unfoldable pub admit : ℕ → String → Option String → List (Share U H) → Option U × Download
    unfolding check_share resolve_active_share
    admit now token body db = elim (resolve_active_share now token db) [
      | none ↦ (none, refused 404 "share link not found or expired")
      | some s ↦ (some s.id, check_share s body)
    ]

  -- `Where("id = ?").Update("download_count", gorm.Expr("download_count + 1"))`
  unfoldable pub count_download : U → List (Share U H) → List (Share U H)
  count_download id db =
      map (λ s. if e.beq s.id id then record s { download_count = s.download_count + 1 } else s) db

  pub settle : Option U → Download → List (Share U H) → List (Share U H)
  unfolding count_download
  settle (some id) (url u) db = count_download id db
  settle _ _ db = db

  unfoldable pub share_download_url :
      (H → String → Bool)
      → (U → Option StoredFile)
      → (String → Option String)
      → ℕ
      → String
      → Option String
      → List (Share U H)
      → List (Share U H) × Download
  unfolding settle admit
  share_download_url verify file_of sign now token body db =
      let (m, d) = admit verify file_of sign now token body db in (settle m d db, d)
