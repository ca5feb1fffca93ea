-- ===== src/Server/Accounts.antt =====
-- backend/cmd/auth-svc/handlers.go and backend/internal/middleware/auth.go: accounts, sign-in and the
-- tokens of a session.
--
-- A handler is a function of the table of users. bcrypt, the signing and the parsing of tokens (at
-- the time of the request) are arguments; the failures of the database are left out, but for the
-- unique index of the addresses.
pub mod Resets
pub mod First
pub mod SingleUse
pub mod Flow
pub mod Sessions
use optiflow.Prelude.{
  ℕ, Bool, true, false, ◌||◌, ◌&&◌, not, Option, none, some, List, [], ◌∷◌, ◌++◌, String, str_eq,
  truthy, any, map, starts_with, if◌then◌else◌, Eq,
}

-- models.User, without the times
pub record User (U : Type 0) : Type 0 where
  pub id : U
  pub email : String
  pub password_hash : String
  pub name : String
  pub storage_quota_bytes : ℕ

pub data TokenType : Type 0 where
  access refresh : TokenType
  other : String → TokenType

-- auth.Claims, without the registered ones
pub record Claims (U : Type 0) : Type 0 where
  pub user_id : U
  pub kind : TokenType

pub data Answer (U : Type 0) : Type 0 where
  refused : ℕ → String → Answer U
  -- tokenResponse: an answer to a refresh has no refresh token
  tokens : String → Option String → Answer U
  me : User U → Answer U
  -- the raw token of a password reset and when it expires
  reset_token : String → ℕ → Answer U
  no_content : Answer U

-- auth.HashPassword with its random salt, auth.VerifyPassword, auth.IssueToken with the lifetime of
-- the type, auth.ParseToken
pub record Crypto (U : Type 0) : Type 0 where
  pub hash : ℕ → String → Option String
  pub verify : String → String → Bool
  pub issue : U → TokenType → Option String
  pub parse : String → Option (Claims U)

abbrev pub is_access : TokenType → Bool
is_access access = true
is_access _ = false

abbrev pub is_refresh : TokenType → Bool
is_refresh refresh = true
is_refresh _ = false

-- `Where(...).First`
unfoldable pub first {ℓ} : {A : Type ℓ} → (A → Bool) → List A → Option A
first p [] = none
first p (x ∷ xs) = let rest = first p xs in if p x then some x else rest

module _ {U : Type 0} ⦃e : Eq U⦄ where
  save_name : String → List (User U) → Option (User U) → List (User U) × Answer U
  save_name name users none = (users, refused 404 "user not found")
  save_name name users (some u) =
      let renamed = record u { name = name } in
      (map (λ v. if e.beq v.id u.id then renamed else v) users, me renamed)

  unfoldable pub update_me : U → String → List (User U) → List (User U) × Answer U
  unfolding save_name first
  update_me user name users =
      if truthy name
      then save_name name users (first (λ u. e.beq u.id user) users)
      else (users, refused 400 "name cannot be empty")

  unfoldable pub get_me : List (User U) → U → Answer U
  unfolding first
  get_me users user = elim (first (λ u. e.beq u.id user) users) [
    | none ↦ refused 404 "user not found"
    | some u ↦ me u
  ]

module _ {U : Type 0} ⦃e : Eq U⦄ (c : Crypto U) where
  -- issueTokenPair, with what the handler says where it fails
  unfoldable pub token_pair : U → String → Answer U
  token_pair user failure = elim (c.issue user access) [
    | none ↦ refused 500 failure
    | some a ↦ elim (c.issue user refresh) [
      | none ↦ refused 500 failure
      | some r ↦ tokens a (some r)
    ]
  ]

  unfoldable pub sign_up_hashed :
      U → String → Option String → String → List (User U) → List (User U) × Answer U
  unfolding token_pair
  sign_up_hashed id email none name users = (users, refused 500 "could not create account")
  sign_up_hashed id email (some h) name users =
      if any (λ u. str_eq u.email email) users
      then (users, refused 409 "email already registered")
      else (
        users
            ++ record {
              id = id;
              email = email;
              password_hash = h;
              name = name;
              storage_quota_bytes = 5368709120;
            }
              ∷ [],
        token_pair id "could not create account",
      )

  -- `id` and `salt` are what the database and bcrypt make up
  unfoldable pub sign_up :
      U → ℕ → String → String → String → List (User U) → List (User U) × Answer U
  unfolding sign_up_hashed
  sign_up id salt email password name users =
      if not (truthy email) || (not (truthy password) || not (truthy name))
      then (users, refused 400 "email, password, and name are required")
      else sign_up_hashed id email (c.hash salt password) name users

  unfoldable pub login_found : String → Option (User U) → Answer U
  unfolding token_pair
  login_found password none = refused 401 "invalid email or password"
  login_found password (some u) =
      if c.verify u.password_hash password
      then token_pair u.id "could not log in"
      else refused 401 "invalid email or password"

  unfoldable pub login : String → String → List (User U) → Answer U
  unfolding login_found first
  login email password users = login_found password (first (λ u. str_eq u.email email) users)

  unfoldable pub access_token : Option (User U) → Answer U
  access_token none = refused 401 "invalid refresh token"
  access_token (some u) = elim (c.issue u.id access) [
    | none ↦ refused 500 "could not refresh token"
    | some t ↦ tokens t none
  ]

  unfoldable pub refresh_claimed : Option (Claims U) → List (User U) → Answer U
  unfolding access_token first
  refresh_claimed none users = refused 401 "invalid refresh token"
  refresh_claimed (some claims) users =
      if is_refresh claims.kind
      then access_token (first (λ u. e.beq u.id claims.user_id) users)
      else refused 401 "invalid refresh token"

  unfoldable pub refresh_token : String → List (User U) → Answer U
  unfolding refresh_claimed
  refresh_token token users = refresh_claimed (c.parse token) users

  unfoldable pub authorized : Option (Claims U) → (U → Answer U) → Answer U
  authorized none next = refused 401 "invalid or expired token"
  authorized (some claims) next =
      if is_access claims.kind then next claims.user_id else refused 401 "invalid or expired token"

  -- RequireAuth before a handler; `bearer` is the header's text after "Bearer ", or none
  unfoldable pub require_auth : Option String → (U → Answer U) → Answer U
  unfolding authorized
  require_auth none next = refused 401 "missing bearer token"
  require_auth (some token) next =
      if truthy token then authorized (c.parse token) next else refused 401 "missing bearer token"
