-- ===== src/Server/Counting.antt =====
-- The number of rows of a table that pass a test, as `SELECT COUNT(*)` gives it.
use optiflow.Prelude.{
  ℕ, ◌+◌, ◌≡◌, ◌≢◌, refl, sym, ap, ◌∙◌, inl, inr, Bool, true, false, List, [], ◌∷◌, ◌++◌, map,
  filter, if◌then◌else◌, arith, Bool-cases,
}
use optiflow.Server.Members.{IsRow}

module _ {A : Type 0} where
  abbrev pub count : (A → Bool) → List A → ℕ
  count p [] = 0
  count p (x ∷ xs) = (if p x then 1 else 0) + count p xs

  pub count-cong :
      (p q : A → Bool) (xs : List A) → ((x : A) → IsRow x xs → p x ≡ q x) → count p xs ≡ count q xs
  count-cong p q [] h = refl
  count-cong p q (x ∷ xs) h = ground (arith, h x (inl refl), count-cong p q xs (λ y k. h y (inr k)))

  pub count-append : (p : A → Bool) (xs ys : List A) → count p (xs ++ ys) ≡ count p xs + count p ys
  count-append p [] ys = omega arith
  count-append p (x ∷ xs) ys = omega (arith, count-append p xs ys)

  pub count-map :
      (p q : A → Bool) (h : A → A) (xs : List A)
      → ((x : A) → IsRow x xs → p (h x) ≡ q x)
      → count p (map h xs) ≡ count q xs
  count-map p q h [] k = refl
  count-map p q h (x ∷ xs) k =
      ground (arith, k x (inl refl), count-map p q h xs (λ y m. k y (inr m)))

  pub count-filter :
      (p keep : A → Bool) (xs : List A)
      → ((x : A) → IsRow x xs → p x ≡ true → keep x ≡ true)
      → count p (filter keep xs) ≡ count p xs
  count-filter p keep [] h = refl
  count-filter p keep (x ∷ xs) h =
      ground (arith, h x (inl refl), count-filter p keep xs (λ y k. h y (inr k)))

  pub count-none :
      (p : A → Bool) (xs : List A) → ((x : A) → IsRow x xs → p x ≡ false) → count p xs ≡ 0
  count-none p [] h = refl
  count-none p (x ∷ xs) h = ground (arith, h x (inl refl), count-none p xs (λ y k. h y (inr k)))

  pub none-count :
      (p : A → Bool) (xs : List A) → count p xs ≡ 0 → (x : A) → IsRow x xs → p x ≡ false
  none-count p [] q x h = absurd h
  none-count p (y ∷ ys) q x (inl same) = ap p same ∙ ground (arith, q)
  none-count p (y ∷ ys) q x (inr h) = none-count p ys (ground (arith, q, Bool-cases (p y))) x h

  pub count-some :
      (p : A → Bool) (xs : List A) → count p xs ≢ 0 → (x : A) × IsRow x xs × (p x ≡ true)
  count-some p [] n = absurd (n refl)
  count-some p (y ∷ ys) n = elim (Bool-cases (p y)) [
    | inl h ↦ (y, inl refl, h)
    | inr h ↦ let (x, m, k) = count-some p ys (λ z. n (ground (arith, h, z))) in (x, inr m, k)
  ]

  pub count_unique :
      (p : A → Bool) (xs : List A)
      → count p xs ≡ 1
      → (x y : A) → IsRow x xs
      → IsRow y xs
      → p x ≡ true
      → p y ≡ true
      → x ≡ y
  count_unique p [] q x y m l h k = absurd m
  count_unique p (z ∷ zs) q x y (inl a) (inl b) h k = a ∙ sym b
  count_unique p (z ∷ zs) q x y (inl a) (inr l) h k =
      absurd (ground (arith, k, none-count p zs (ground (arith, q, h, ap p a)) y l))
  count_unique p (z ∷ zs) q x y (inr m) (inl b) h k =
      absurd (ground (arith, h, none-count p zs (ground (arith, q, k, ap p b)) x m))
  count_unique p (z ∷ zs) q x y (inr m) (inr l) h k = elim (Bool-cases (p z)) [
    | inl a ↦ absurd (ground (arith, h, none-count p zs (ground (arith, q, a)) x m))
    | inr a ↦ count_unique p zs (ground (arith, q, a)) x y m l h k
  ]
