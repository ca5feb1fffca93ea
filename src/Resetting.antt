-- ===== src/Resetting.antt =====
-- A reset of a password from requestPasswordReset (backend/cmd/auth-svc) over the page of the new
-- password (frontend/app/reset-password/page.tsx) and confirmPasswordReset to the sign-in
-- (frontend/lib/auth.ts) and login.
use optiflow.Prelude.{
  ℕ, ◌≤◌, ◌≡◌, Bool, true, Option, some, List, ◌∷◌, String, str_eq, utf8_length,
  js_length-utf8_length, arith, Eq,
}
use optiflow.Auth.{parse_credentials}
use optiflow.Pages.ResetPassword as Page
use optiflow.Pages.ResetPassword.{initial, run, act, submit}
use optiflow.Pages.ResetPassword.Laws.{run-sends_confirmed}
use optiflow.Server.Accounts.{
  User, reset_token, no_content, tokens, Crypto, first, access, refresh, login,
}
use optiflow.Server.Accounts.Resets.{Accounts, request_password_reset, confirm_password_reset}
use optiflow.Server.Accounts.Flow.{reset-login}

module _ {U : Type 0} ⦃e : Eq U⦄ (c : Crypto U) (digest : String → String) where
  -- A user has asked for a reset and got a token, and the page, whatever its user has done, sends
  -- that token with a password on a click. Where the server's hash verifies the password that it was
  -- made from, bcrypt takes this one, the token has not expired and tokens can be issued: the
  -- confirmation is carried out, the sign-in form takes the address, which is one for zod, with that
  -- password, and the login gives the user's tokens.
  pub page-login :
      ((salt : ℕ) (p h : String) → c.hash salt p ≡ some h → c.verify h p ≡ true)
      → (now later salt : ℕ) (id : U) (raw email password h a r : String) (u : User U)
        (s s' : Accounts U) (expires : ℕ) (token : Option String) (actions : List Page.Action)
        (rest : List Page.Effect) (is_email : String → Bool)
      → first (λ v. str_eq v.email email) s.users ≡ some u
      → request_password_reset digest now id raw email s ≡ (s', reset_token raw expires)
      → (act (run (initial token) actions) submit).1
        ≡ Page.confirm_password_reset raw password ∷ rest
      → later ≤ expires
      → c.hash salt password ≡ some h
      → c.issue u.id access ≡ some a
      → c.issue u.id refresh ≡ some r
      → is_email email ≡ true
      → ((confirm_password_reset digest c later salt raw password s').1 ≡ no_content)
        × (parse_credentials is_email (record { email = some email; password = some password })
            ≡ some (email, password))
        × (login c email password
              (confirm_password_reset digest c later salt raw password s').0.users
            ≡ tokens a (some r))
  unfolding parse_credentials
  page-login verifies now later salt id raw email password h a r u s s' expires token actions rest
        is_email found request sent le hashed ia ir address =
      let (t, filled, p, q, long, free, undone, alone) =
        run-sends_confirmed token actions raw password rest sent in
      let bytes : 6 ≤ utf8_length password = omega (arith, long, js_length-utf8_length password) in
      let (ok, users, signed_in) =
        reset-login c digest verifies now later salt id raw email password h a r u s s' expires
          found request le filled bytes hashed ia ir in
      (ok, ground (arith, long, address), signed_in)
