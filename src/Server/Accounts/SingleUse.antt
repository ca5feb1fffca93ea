-- ===== src/Server/Accounts/SingleUse.antt =====
-- handlers_password_reset.go: a token resets a password once.
use optiflow.Prelude.{
  ℕ, ◌≡◌, ◌≢◌, refl, ◌∙◌, subst, true, not, ◌||◌, Option, none, some, List, [], ◌∷◌, String, str_eq,
  truthy, ltb, any, if◌then◌else◌, if_lem, utf8_length, arith, Eq,
}
use optiflow.Server.Accounts.{User, Answer, refused, no_content, Crypto, first}
use optiflow.Server.Accounts.Resets.{
  ResetToken, Accounts, request_found, request_password_reset, usable, usable_token, reset_password,
  confirm_with, confirm_password_reset,
}
use optiflow.Server.Accounts.First.{first-map, first-append}

-- A request to the accounts; `elsewhere` is what another handler does to the users.
pub data Request (U : Type 0) : Type 0 where
  requesting : ℕ → U → String → String → Request U
  confirming : ℕ → ℕ → String → String → Request U
  elsewhere : List (User U) → Request U

module _ {U : Type 0} ⦃e : Eq U⦄ (c : Crypto U) (digest : String → String) where
  unfoldable pub handle : Request U → Accounts U → Accounts U
  handle (requesting now id raw email) s = (request_password_reset digest now id raw email s).0
  handle (confirming now salt raw password) s =
      (confirm_password_reset digest c now salt raw password s).0
  handle (elsewhere users) s = record s { users = users }

  unfoldable pub run : List (Request U) → Accounts U → Accounts U
  unfolding handle
  run [] s = s
  run (r ∷ rs) s = run rs (handle r s)

  -- The row that a look-up of the token finds is used.
  abbrev IsSpent : String → Accounts U → Type 0
  IsSpent raw s =
      (t : ResetToken U) × (first (λ r. str_eq r.token_hash (digest raw)) s.tokens ≡ some t)
      × (t.used ≡ true)

  reset-IsSpent :
      (raw : String) (t : ResetToken U) (h : String) (s : Accounts U)
      → IsSpent raw s
      → IsSpent raw (reset_password t h s)
  unfolding reset_password
  reset-IsSpent raw t h s (r, q, u) = (
    if e.beq r.id t.id then record r { used = true } else r,
    first-map (λ x. str_eq x.token_hash (digest raw))
        (λ x. if e.beq x.id t.id then record x { used = true } else x) s.tokens r
        (λ x. ground arith) q,
    ground (arith, u),
  )

  confirm_with-IsSpent :
      (raw : String) (m : Option (ResetToken U)) (h : Option String) (s : Accounts U)
      → IsSpent raw s
      → IsSpent raw (confirm_with m h s).0
  unfolding confirm_with
  confirm_with-IsSpent raw none h s k = k
  confirm_with-IsSpent raw (some t) none s k = k
  confirm_with-IsSpent raw (some t) (some h) s k = reset-IsSpent raw t h s k

  -- what a table becomes by a confirmation
  confirmed :
      (now salt : ℕ) (raw password : String) (s : Accounts U)
      → (P : Accounts U × Answer U → Type 0) → ((m : String) → P (s, refused 400 m))
      → P (confirm_with (usable_token digest now raw s.tokens) (c.hash salt password) s)
      → P (confirm_password_reset digest c now salt raw password s)
  unfolding confirm_password_reset
  confirmed now salt raw password s P f g =
      if_lem P (not (truthy raw) || ltb (utf8_length password) 6) _ _ (λ h. f _) (λ h. g)

  found-IsSpent :
      (raw : String) (now : ℕ) (id : U) (new : String) (m : Option (User U)) (s : Accounts U)
      → IsSpent raw s
      → IsSpent raw (request_found digest now id new m s).0
  unfolding request_found
  found-IsSpent raw now id new none s k = k
  found-IsSpent raw now id new (some u) s (t, q, used) =
      if_lem (λ (r : Accounts U × Answer U). IsSpent raw r.0)
        (any (λ t. str_eq t.token_hash (digest new)) s.tokens) _ _ (λ h. (t, q, used))
        (λ h. (t, first-append (λ r. str_eq r.token_hash (digest raw)) s.tokens _ t q, used))

  requested-IsSpent :
      (raw : String) (now : ℕ) (id : U) (new email : String) (s : Accounts U)
      → IsSpent raw s
      → IsSpent raw (request_password_reset digest now id new email s).0
  unfolding request_password_reset
  requested-IsSpent raw now id new email s k =
      if_lem (λ (r : Accounts U × Answer U). IsSpent raw r.0) (truthy email) _ _
        (λ h. found-IsSpent raw now id new (first (λ u. str_eq u.email email) s.users) s k) (λ h. k)

  handle-IsSpent :
      (raw : String) (r : Request U) (s : Accounts U) → IsSpent raw s → IsSpent raw (handle r s)
  unfolding handle
  handle-IsSpent raw (requesting now id new email) s k = requested-IsSpent raw now id new email s k
  handle-IsSpent raw (confirming now salt other password) s k =
      confirmed now salt other password s (λ r. IsSpent raw r.0) (λ m. k)
        (confirm_with-IsSpent raw (usable_token digest now other s.tokens) (c.hash salt password) s
          k)
  handle-IsSpent raw (elsewhere users) s k = k

  run-IsSpent :
      (raw : String) (rs : List (Request U)) (s : Accounts U)
      → IsSpent raw s
      → IsSpent raw (run rs s)
  unfolding run
  run-IsSpent raw [] s k = k
  run-IsSpent raw (r ∷ rs) s k = run-IsSpent raw rs (handle r s) (handle-IsSpent raw r s k)

  -- a confirmation of a used token changes nothing
  spent_refused :
      (now salt : ℕ) (raw password : String) (s : Accounts U)
      → IsSpent raw s
      → ((confirm_password_reset digest c now salt raw password s).0 ≡ s)
        × ((confirm_password_reset digest c now salt raw password s).1 ≢ no_content)
  unfolding usable_token usable confirm_with
  spent_refused now salt raw password s (t, q, u) =
      confirmed now salt raw password s (λ r. (r.0 ≡ s) × (r.1 ≢ no_content)) (λ m. (refl, λ k. cc))
        (subst
          (λ m.
            ((confirm_with m (c.hash salt password) s).0 ≡ s)
            × ((confirm_with m (c.hash salt password) s).1 ≢ no_content))
          (the_none t q u) (refl, λ k. cc))
    where
      the_none :
          (t : ResetToken U)
          → first (λ r. str_eq r.token_hash (digest raw)) s.tokens ≡ some t
          → t.used ≡ true
          → none ≡ usable_token digest now raw s.tokens
      the_none t q u = ground (arith, q, u)

  with-IsSpent :
      (now : ℕ) (raw : String) (m : Option (ResetToken U)) (h : Option String) (s : Accounts U)
      → usable_token digest now raw s.tokens ≡ m
      → (confirm_with m h s).1 ≡ no_content
      → IsSpent raw (confirm_with m h s).0
  unfolding confirm_with reset_password usable_token usable
  with-IsSpent now raw none h s q k = absurd (ground (arith, k))
  with-IsSpent now raw (some t) none s q k = absurd (ground (arith, k))
  with-IsSpent now raw (some t) (some h) s q k =
      let found : first (λ r. str_eq r.token_hash (digest raw)) s.tokens ≡ some t =
        ground (arith, q) in
      (
        record t { used = true },
        first-map (λ x. str_eq x.token_hash (digest raw))
              (λ x. if e.beq x.id t.id then record x { used = true } else x) s.tokens t
              (λ x. ground arith) found
            ∙ ground (arith, e.beq_iff t.id t.id),
        refl,
      )

  -- Once a confirmation has reset a password, then whatever requests follow, with whatever new
  -- tokens, a confirmation with the same token changes nothing and does not answer with success, at
  -- any time and with any password.
  pub run-single_use :
      (now salt : ℕ) (raw password : String) (s : Accounts U) (rs : List (Request U))
      (later pepper : ℕ) (other : String)
      → (confirm_password_reset digest c now salt raw password s).1 ≡ no_content
      → ((confirm_password_reset digest c later pepper raw other
            (run rs (confirm_password_reset digest c now salt raw password s).0)).0
          ≡ run rs (confirm_password_reset digest c now salt raw password s).0)
        × ((confirm_password_reset digest c later pepper raw other
              (run rs (confirm_password_reset digest c now salt raw password s).0)).1
            ≢ no_content)
  run-single_use now salt raw password s rs later pepper other k =
      spent_refused later pepper raw other
        (run rs (confirm_password_reset digest c now salt raw password s).0)
        (run-IsSpent raw rs (confirm_password_reset digest c now salt raw password s).0 (
          confirmed now salt raw password s (λ r. r.1 ≡ no_content → IsSpent raw r.0)
            (λ m q. absurd (ground (arith, q)))
            (with-IsSpent now raw (usable_token digest now raw s.tokens) (c.hash salt password) s
              refl)
            k))
