-- ===== src/Server/Accounts/Resets.antt =====
-- backend/cmd/auth-svc/handlers_password_reset.go: the reset of a password by a token that is good
-- once and for a time.
--
-- A time is the number of nanoseconds since the start of the year 1. `digest` is the hash of a
-- token, which is random.
use optiflow.Prelude.{
  ℕ, ◌+◌, ◌*◌, Bool, true, false, not, ◌||◌, Option, none, some, List, [], ◌∷◌, ◌++◌, String,
  str_eq, truthy, ltb, any, map, if◌then◌else◌, utf8_length, Eq,
}
use optiflow.Server.Accounts.{User, Answer, refused, reset_token, no_content, Crypto, first}

-- models.PasswordResetToken, without the time of creation
pub record ResetToken (U : Type 0) : Type 0 where
  pub id : U
  pub user_id : U
  pub token_hash : String
  pub expires_at : ℕ
  pub used : Bool

pub record Accounts (U : Type 0) : Type 0 where
  pub users : List (User U)
  pub tokens : List (ResetToken U)

-- `passwordResetTokenTTL`
abbrev pub password_reset_token_ttl : ℕ
password_reset_token_ttl = 30 * 60 * 1000000000

unfoldable pub usable : {U : Type 0} → ℕ → Option (ResetToken U) → Option (ResetToken U)
usable now none = none
usable now (some t) = if t.used || ltb t.expires_at now then none else some t

module _ {U : Type 0} ⦃e : Eq U⦄ where
  -- the transaction of confirmPasswordReset
  unfoldable pub reset_password : ResetToken U → String → Accounts U → Accounts U
  reset_password t h s = record {
    users = map (λ u. if e.beq u.id t.user_id then record u { password_hash = h } else u) s.users;
    tokens = map (λ r. if e.beq r.id t.id then record r { used = true } else r) s.tokens;
  }

  unfoldable pub confirm_with :
      Option (ResetToken U) → Option String → Accounts U → Accounts U × Answer U
  unfolding reset_password
  confirm_with none h s = (s, refused 400 "invalid or expired reset token")
  confirm_with (some t) none s = (s, refused 500 "could not reset password")
  confirm_with (some t) (some h) s = (reset_password t h s, no_content)

module _ {U : Type 0} ⦃e : Eq U⦄ (digest : String → String) where
  unfoldable pub request_found :
      ℕ → U → String → Option (User U) → Accounts U → Accounts U × Answer U
  request_found now id raw none s = (s, refused 404 "no account with that email")
  request_found now id raw (some u) s =
      if any (λ t. str_eq t.token_hash (digest raw)) s.tokens
      then (s, refused 500 "could not start password reset")
      else (
        record s {
          tokens =
              s.tokens
              ++ record {
                id = id;
                user_id = u.id;
                token_hash = digest raw;
                expires_at = now + password_reset_token_ttl;
                used = false;
              }
                ∷ [];
        },
        reset_token raw (now + password_reset_token_ttl),
      )

  -- `id` and `raw` are made up for the row and its token; the hashes have a unique index
  unfoldable pub request_password_reset :
      ℕ → U → String → String → Accounts U → Accounts U × Answer U
  unfolding request_found first
  request_password_reset now id raw email s =
      if truthy email
      then request_found now id raw (first (λ u. str_eq u.email email) s.users) s
      else (s, refused 400 "email is required")

  -- the row that a confirmation goes on with
  unfoldable pub usable_token : ℕ → String → List (ResetToken U) → Option (ResetToken U)
  unfolding usable first
  usable_token now raw tokens = usable now (first (λ t. str_eq t.token_hash (digest raw)) tokens)

  unfoldable pub confirm_password_reset :
      Crypto U → ℕ → ℕ → String → String → Accounts U → Accounts U × Answer U
  unfolding confirm_with usable_token
  confirm_password_reset c now salt raw password s =
      if not (truthy raw) || ltb (utf8_length password) 6
      then (s, refused 400 "token is required and new_password must be at least 6 characters")
      else confirm_with (usable_token now raw s.tokens) (c.hash salt password) s
