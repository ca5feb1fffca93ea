-- ===== src/Server/Members.antt =====
-- The rows of a table of the database as its members, and those that a test leaves.
use optiflow.Prelude.{
  arith, ◌≡◌, refl, sym, ap, ◌∙◌, ◌⊎◌, inl, inr, Bool, true, false, List, [], ◌∷◌, ◌++◌, map,
  filter, All, if◌then◌else◌,
}
use mathlib.Core.Bool.{true≢false}

module _ {A : Type 0} where
  abbrev pub IsRow : A → List (A) → Type 0
  IsRow r [] = ⊥
  IsRow r (s ∷ ss) = (r ≡ s) ⊎ IsRow r ss

  filter_at :
      (p : A → Bool) (r s : A) (ss fs : List (A)) (b : Bool)
      → p s ≡ b
      → (IsRow r fs → IsRow r ss × (p r ≡ true))
      → IsRow r (if b then s ∷ fs else fs)
      → IsRow r (s ∷ ss) × (p r ≡ true)
  filter_at p r s ss fs true q ih (inl same) = (inl same, ap p same ∙ q)
  filter_at p r s ss fs true q ih (inr h) = (inr (ih h).0, (ih h).1)
  filter_at p r s ss fs false q ih h = (inr (ih h).0, (ih h).1)

  pub filter-IsRow :
      (p : A → Bool) (r : A) (db : List (A)) → IsRow r (filter p db) → IsRow r db × (p r ≡ true)
  filter-IsRow p r [] h = absurd h
  filter-IsRow p r (s ∷ ss) h = filter_at p r s ss (filter p ss) (p s) refl (filter-IsRow p r ss) h

  at_filter :
      (p : A → Bool) (r s : A) (ss fs : List (A)) (b : Bool)
      → p s ≡ b
      → p r ≡ true
      → (IsRow r ss → IsRow r fs)
      → IsRow r (s ∷ ss)
      → IsRow r (if b then s ∷ fs else fs)
  at_filter p r s ss fs true q t ih (inl same) = inl same
  at_filter p r s ss fs true q t ih (inr h) = inr (ih h)
  at_filter p r s ss fs false q t ih (inl same) = absurd (true≢false (sym t ∙ ap p same ∙ q))
  at_filter p r s ss fs false q t ih (inr h) = ih h

  pub IsRow-filter :
      (p : A → Bool) (r : A) (db : List (A)) → IsRow r db → p r ≡ true → IsRow r (filter p db)
  IsRow-filter p r [] h t = absurd h
  IsRow-filter p r (s ∷ ss) h t =
      at_filter p r s ss (filter p ss) (p s) refl t (λ k. IsRow-filter p r ss k t) h

  pub All-IsRow : (P : A → Type 0) (db : List (A)) → ((r : A) → IsRow r db → P r) → All P db
  All-IsRow P [] f = tt
  All-IsRow P (s ∷ ss) f = (f s (inl refl), All-IsRow P ss (λ r h. f r (inr h)))

  pub map-IsRow :
      (h : A → A) (r : A) (db : List A) → IsRow r (map h db) → (s : A) × IsRow s db × (r ≡ h s)
  map-IsRow h r [] k = absurd k
  map-IsRow h r (s ∷ ss) (inl same) = (s, inl refl, same)
  map-IsRow h r (s ∷ ss) (inr k) = let (t, m, q) = map-IsRow h r ss k in (t, inr m, q)

  pub append-IsRow : (r : A) (xs ys : List A) → IsRow r (xs ++ ys) → IsRow r xs ⊎ IsRow r ys
  append-IsRow r [] ys h = inr h
  append-IsRow r (x ∷ xs) ys (inl same) = inl (inl same)
  append-IsRow r (x ∷ xs) ys (inr h) = elim (append-IsRow r xs ys h) [
    | inl k ↦ inl (inr k)
    | inr k ↦ inr k
  ]

  pub IsRow-append : (r : A) (xs ys : List A) → IsRow r xs ⊎ IsRow r ys → IsRow r (xs ++ ys)
  IsRow-append r [] ys (inl h) = absurd h
  IsRow-append r [] ys (inr h) = h
  IsRow-append r (x ∷ xs) ys (inl (inl same)) = inl same
  IsRow-append r (x ∷ xs) ys (inl (inr h)) = inr (IsRow-append r xs ys (inl h))
  IsRow-append r (x ∷ xs) ys (inr h) = inr (IsRow-append r xs ys (inr h))

  pub map-cong :
      (f g : A → A) (xs : List A) → ((x : A) → IsRow x xs → f x ≡ g x) → map f xs ≡ map g xs
  map-cong f g [] h = refl
  map-cong f g (x ∷ xs) h = ground (arith, h x (inl refl), map-cong f g xs (λ y m. h y (inr m)))

  pub map-same : (f : A → A) (xs : List A) → ((x : A) → IsRow x xs → f x ≡ x) → map f xs ≡ xs
  map-same f [] h = refl
  map-same f (x ∷ xs) h = ground (arith, h x (inl refl), map-same f xs (λ y m. h y (inr m)))

  pub map-map : (f g : A → A) (xs : List A) → map f (map g xs) ≡ map (λ x. f (g x)) xs
  map-map f g [] = refl
  map-map f g (x ∷ xs) = ap (λ r. f (g x) ∷ r) (map-map f g xs)

  pub IsRow-map : (f : A → A) (r : A) (xs : List A) → IsRow r xs → IsRow (f r) (map f xs)
  IsRow-map f r [] m = absurd m
  IsRow-map f r (x ∷ xs) (inl same) = inl (ap f same)
  IsRow-map f r (x ∷ xs) (inr m) = inr (IsRow-map f r xs m)
