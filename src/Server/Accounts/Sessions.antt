-- ===== src/Server/Accounts/Sessions.antt =====
-- handlers.go of backend/cmd/auth-svc and internal/middleware/auth.go: what the two tokens of a
-- sign-in are good for.
use optiflow.Prelude.{
  ◌≡◌, refl, true, Option, none, some, List, String, str_eq, truthy, arith, Eq, Bool-cases, inl,
  inr,
}
use optiflow.Server.Accounts.{
  User, TokenType, Answer, refused, tokens, Crypto, first, access, refresh, token_pair, login,
  login_found, refresh_token, refresh_claimed, access_token, require_auth, authorized,
}
use optiflow.Server.Accounts.First.{first-passes}

module _ {U : Type 0} ⦃e : Eq U⦄ where
  pair_parts :
      (c : Crypto U) (user : U) (failure a r : String)
      → token_pair c user failure ≡ tokens a (some r)
      → (c.issue user access ≡ some a) × (c.issue user refresh ≡ some r)
  unfolding token_pair
  pair_parts c user failure a r h = (ground (arith, h), ground (arith, h))

  found_parts :
      (c : Crypto U) (email password a r : String) (users : List (User U)) (m : Option (User U))
      → first (λ v. str_eq v.email email) users ≡ m
      → login_found c password m ≡ tokens a (some r)
      → (u : User U) × (first (λ v. str_eq v.email email) users ≡ some u)
        × (c.verify u.password_hash password ≡ true)
        × (c.issue u.id access ≡ some a)
        × (c.issue u.id refresh ≡ some r)
  unfolding login_found
  found_parts c email password a r users none q h = absurd (ground (arith, h))
  found_parts c email password a r users (some u) q h =
      elim (Bool-cases (c.verify u.password_hash password)) [
        | inr n ↦ absurd (ground (arith, h, n))
        | inl y ↦
            let (x, z) = pair_parts c u.id "could not log in" a r (ground (arith, h, y)) in
            (u, q, y, x, z)
      ]

  login_parts :
      (c : Crypto U) (email password a r : String) (users : List (User U))
      → login c email password users ≡ tokens a (some r)
      → (u : User U) × (first (λ v. str_eq v.email email) users ≡ some u)
        × (c.verify u.password_hash password ≡ true)
        × (c.issue u.id access ≡ some a)
        × (c.issue u.id refresh ≡ some r)
  unfolding login
  login_parts c email password a r users h =
      found_parts c email password a r users (first (λ v. str_eq v.email email) users) refl h

  -- A login that has answered with a pair of tokens, and requests with them while the parser still
  -- takes the tokens that were issued as what they are; `v` is the first row with the id of the user,
  -- and a new access token can be issued for it. The address is that of a user whose hash verifies
  -- the password; with the access token every guarded handler runs for that user, and a refresh is
  -- refused; with the refresh token the guard refuses every handler, and a refresh answers with the
  -- new access token and no refresh token.
  pub login_tokens :
      (c now : Crypto U) (email password a r fresh : String) (users : List (User U)) (v : User U)
      → ((user : U) (kind : TokenType) (t : String)
          → c.issue user kind ≡ some t
          → (truthy t ≡ true) × (now.parse t ≡ some (record { user_id = user; kind = kind })))
      → login c email password users ≡ tokens a (some r)
      → ((u : User U)
          → first (λ w. str_eq w.email email) users ≡ some u
          → (first (λ w. e.beq w.id u.id) users ≡ some v) × (now.issue v.id access ≡ some fresh))
      → (u : User U) × (first (λ w. str_eq w.email email) users ≡ some u)
        × (c.verify u.password_hash password ≡ true)
        × ((next : U → Answer U) → require_auth now (some a) next ≡ next u.id)
        × (refresh_token now a users ≡ refused 401 "invalid refresh token")
        × ((next : U → Answer U)
            → require_auth now (some r) next ≡ refused 401 "invalid or expired token")
        × (v.id ≡ u.id)
        × (refresh_token now r users ≡ tokens fresh none)
  unfolding require_auth authorized refresh_token refresh_claimed access_token
  login_tokens c now email password a r fresh users v law h there =
      let (u, q, y, ia, ir) = login_parts c email password a r users h in
      let (ta, pa) = law u.id access a ia in
      let (tr, pr) = law u.id refresh r ir in
      let (found, issued) = there u q in
      (
        u,
        q,
        y,
        λ next. ground (arith, ta, pa),
        ground (arith, pa),
        λ next. ground (arith, tr, pr),
        (e.beq_iff v.id u.id).0 (first-passes (λ w. e.beq w.id u.id) users v found),
        ground (arith, pr, found, issued),
      )
