-- ===== src/Server/Accounts/Flow.antt =====
-- handlers_password_reset.go and handlers.go of backend/cmd/auth-svc: from the request of a reset to
-- the sign-in with the new password, and two confirmations at the same time.
use optiflow.Prelude.{
  ℕ, ◌+◌, ◌≤◌, ◌≡◌, ◌≢◌, refl, sym, ap, ◌∙◌, subst, inl, inr, true, false, some, List, [], ◌∷◌,
  ◌++◌, String, str_eq, str_eq_iff, truthy, map, any, if◌then◌else◌, utf8_length, Bool-cases, arith,
  Eq,
}
use optiflow.Server.Accounts.{
  User, reset_token, no_content, tokens, Crypto, first, access, refresh, login, login_found,
  token_pair,
}
use optiflow.Server.Accounts.Resets.{
  ResetToken, Accounts, password_reset_token_ttl, request_found, request_password_reset, usable,
  usable_token, reset_password, confirm_with, confirm_password_reset,
}
use optiflow.Server.Accounts.First.{first-map, first-new}
use optiflow.Server.Accounts.SingleUse.{run, run-single_use}

module _ {U : Type 0} ⦃e : Eq U⦄ (c : Crypto U) (digest : String → String) where
  -- the row of a user with another password
  abbrev pub with_hash : U → String → User U → User U
  with_hash id h v = if e.beq v.id id then record v { password_hash = h } else v

  requested :
      (now : ℕ) (id : U) (raw email : String) (u : User U) (s s' : Accounts U) (expires : ℕ)
      → first (λ v. str_eq v.email email) s.users ≡ some u
      → request_password_reset digest now id raw email s ≡ (s', reset_token raw expires)
      → (s'.users ≡ s.users)
        × ((t : ResetToken U) × (first (λ r. str_eq r.token_hash (digest raw)) s'.tokens ≡ some t)
            × (t.user_id ≡ u.id)
            × (t.used ≡ false)
            × (t.expires_at ≡ expires))
  unfolding request_password_reset request_found
  requested now id raw email u s s' expires found ran = elim (Bool-cases (truthy email)) [
    | inr n ↦ absurd (ground (arith, ran, n))
    | inl y ↦ elim (Bool-cases (any (λ t. str_eq t.token_hash (digest raw)) s.tokens)) [
      | inl taken ↦ absurd (ground (arith, ran, y, found, taken))
      | inr free ↦
          let t : ResetToken U = record {
            id = id;
            user_id = u.id;
            token_hash = digest raw;
            expires_at = now + password_reset_token_ttl;
            used = false;
          } in
          let here : s' ≡ record s { tokens = s.tokens ++ t ∷ [] } =
            ground (arith, ran, y, found, free) in
          (
            ap (λ a. a.users) here,
            (
              t,
              ap (λ a. first (λ r. str_eq r.token_hash (digest raw)) a.tokens) here
                  ∙ first-new (λ r. str_eq r.token_hash (digest raw)) s.tokens t free
                      ((str_eq_iff (digest raw) (digest raw)).1 refl),
              refl,
              refl,
              ground (arith, ran, y, found, free),
            ),
          )
    ]
  ]

  confirm_run :
      (now salt : ℕ) (raw password h : String) (s : Accounts U) (t : ResetToken U)
      → first (λ r. str_eq r.token_hash (digest raw)) s.tokens ≡ some t
      → t.used ≡ false
      → now ≤ t.expires_at
      → truthy raw ≡ true
      → 6 ≤ utf8_length password
      → c.hash salt password ≡ some h
      → confirm_password_reset digest c now salt raw password s ≡ (reset_password t h s, no_content)
  unfolding confirm_password_reset usable_token usable confirm_with
  confirm_run now salt raw password h s t found unused le some_raw long hashed =
      ground (arith, found, unused, le, some_raw, long, hashed)

  login_run :
      (email password h a r : String) (users : List (User U)) (u : User U)
      → first (λ v. str_eq v.email email) users ≡ some u
      → u.password_hash ≡ h
      → c.verify h password ≡ true
      → c.issue u.id access ≡ some a
      → c.issue u.id refresh ≡ some r
      → login c email password users ≡ tokens a (some r)
  unfolding login login_found token_pair
  login_run email password h a r users u found hash ok ia ir =
      ground (arith, found, hash, ok, ia, ir)

  -- A reset from end to end, where a hash verifies the password that it was made from and tokens can
  -- be issued: if the request for an address has answered with a token, then until the token's
  -- expiry its confirmation with a password of six bytes or more that bcrypt takes is carried out.
  -- It changes the hash of the rows with the user's id and nothing else of the users, and the login
  -- with the address and the new password gives the user's tokens.
  pub reset-login :
      ((salt : ℕ) (p h : String) → c.hash salt p ≡ some h → c.verify h p ≡ true)
      → (now later salt : ℕ) (id : U) (raw email password h a r : String) (u : User U)
        (s s' : Accounts U) (expires : ℕ)
      → first (λ v. str_eq v.email email) s.users ≡ some u
      → request_password_reset digest now id raw email s ≡ (s', reset_token raw expires)
      → later ≤ expires
      → truthy raw ≡ true
      → 6 ≤ utf8_length password
      → c.hash salt password ≡ some h
      → c.issue u.id access ≡ some a
      → c.issue u.id refresh ≡ some r
      → ((confirm_password_reset digest c later salt raw password s').1 ≡ no_content)
        × ((confirm_password_reset digest c later salt raw password s').0.users
            ≡ map (with_hash u.id h) s.users)
        × (login c email password
              (confirm_password_reset digest c later salt raw password s').0.users
            ≡ tokens a (some r))
  unfolding reset_password
  reset-login verifies now later salt id raw email password h a r u s s' expires found request le
        some_raw long hashed ia ir =
      let (same, (t, mine, owner, unused, until)) =
        requested now id raw email u s s' expires found request in
      let ran =
        confirm_run later salt raw password h s' t mine unused
          (subst (λ n. later ≤ n) (sym until) le) some_raw long hashed in
      let users : (confirm_password_reset digest c later salt raw password s').0.users
          ≡ map (with_hash u.id h) s.users =
        ap (λ q. q.0.users) ran
        ∙ ap (λ o. map (with_hash o h) s'.users) owner
        ∙ ap (map (with_hash u.id h)) same in
      (
        ap (λ q. q.1) ran,
        users,
        ap (login c email password) users
            ∙ login_run email password h a r (map (with_hash u.id h) s.users) (with_hash u.id h u)
                (first-map (λ v. str_eq v.email email) (with_hash u.id h) s.users u
                  (λ v. ground arith) found)
                (ground (arith, e.beq_iff u.id u.id)) (verifies salt password h hashed)
                (ground (arith, ia)) (ground (arith, ir)),
      )

  -- Two confirmations with one token, each of which would be carried out on the table as it is: one
  -- after the other, the second is refused. If the second has looked the token up before the first
  -- writes, both are carried out.
  pub confirm_race :
      (now salt later pepper : ℕ) (raw password other : String) (s : Accounts U)
      → (confirm_password_reset digest c now salt raw password s).1 ≡ no_content
      → (confirm_password_reset digest c later pepper raw other s).1 ≡ no_content
      → ((confirm_password_reset digest c later pepper raw other
            (confirm_password_reset digest c now salt raw password s).0).1
          ≢ no_content)
        × ((confirm_with
              (usable_token digest later raw s.tokens)
              (c.hash pepper other)
              (confirm_password_reset digest c now salt raw password s).0).1
            ≡ no_content)
  unfolding confirm_password_reset confirm_with run
  confirm_race now salt later pepper raw password other s one two = (
    (run-single_use c digest now salt raw password s [] later pepper other one).1,
    ground (arith, two),
  )
