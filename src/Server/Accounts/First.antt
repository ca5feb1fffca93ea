-- ===== src/Server/Accounts/First.antt =====
-- `Where(...).First` on a table that changes.
use optiflow.Prelude.{
  ◌≡◌, sym, ap, ◌∙◌, inl, inr, Bool, true, false, some, List, [], ◌∷◌, ◌++◌, map, any, Bool-cases,
  arith,
}
use optiflow.Server.Accounts.{first}

module _ {A : Type 0} (p : A → Bool) where
  -- an update of columns that the test does not read
  pub first-map :
      (h : A → A) (xs : List A) (x : A)
      → ((y : A) → p (h y) ≡ p y)
      → first p xs ≡ some x
      → first p (map h xs) ≡ some (h x)
  unfolding first
  first-map h [] x k q = ground (arith, q)
  first-map h (y ∷ ys) x k q = ground (arith, q, k y, first-map h ys x k)

  pub first-append : (xs ys : List A) (x : A) → first p xs ≡ some x → first p (xs ++ ys) ≡ some x
  unfolding first
  first-append [] ys x q = absurd (ground (arith, q))
  first-append (y ∷ xs) ys x q = ground (arith, q, first-append xs ys x)

  pub first-new :
      (xs : List A) (y : A) → any p xs ≡ false → p y ≡ true → first p (xs ++ y ∷ []) ≡ some y
  unfolding first
  first-new [] y h k = ground (arith, k)
  first-new (x ∷ xs) y h k = ground (arith, h, first-new xs y)

  pub first-passes : (xs : List A) (x : A) → first p xs ≡ some x → p x ≡ true
  unfolding first
  first-passes [] x q = absurd (ground (arith, q))
  first-passes (y ∷ xs) x q = elim (Bool-cases (p y)) [
    | inl h ↦ let same : y ≡ x = ground (arith, q, h) in ap p (sym same) ∙ h
    | inr n ↦ first-passes xs x (ground (arith, q, n))
  ]
