-- ===== src/Server/Folders/Walk.antt =====
-- isDescendant: what it decides, and when its loop ends.
use optiflow.Prelude.{
  ℕ, zero, suc, ◌≤◌, ◌≡◌, ◌↔◌, ◌⊎◌, refl, Bool, true, false, Option, none, some, List, sym, subst,
  Bool-cases, inl, inr, Eq, arith,
}
use optiflow.Server.Folders.{Folder, resolve_owned_folder, parent_of, is_descendant}

module _ {U : Type 0} ⦃e : Eq U⦄ (db : List (Folder U)) (user : U) where
  -- The parent of a folder of the user, if it is there and has one.
  abbrev pub parent : U → Option U
  parent c = parent_of (resolve_owned_folder user c db)

  -- The folder itself and all that lie below it.
  pub data Below (folder : U) : U → Type 0 where
    here : Below folder folder
    up : {c p : U} → parent c ≡ some p → Below folder p → Below folder c

  -- The way up from a folder comes to an end.
  pub data Rooted : U → Type 0 where
    top : {c : U} → parent c ≡ none → Rooted c
    up : {c p : U} → parent c ≡ some p → Rooted p → Rooted c

  Below-cases :
      {folder c : U}
      → Below folder c
      → (c ≡ folder) ⊎ ((p : U) × (parent c ≡ some p) × Below folder p)
  Below-cases here = inl refl
  Below-cases (up {c} {p} h b) = inr (p, h, b)

  module _ (folder : U) where
    Below-next :
        (c p : U) → parent c ≡ some p → e.beq c folder ≡ false → Below folder c → Below folder p
    Below-next c p h ne b = elim (Below-cases b) [
      | inl same ↦ absurd (ground (arith, (e.beq_iff c folder).1 same))
      | inr (q, h', b') ↦ subst (Below folder) (ground (arith, h, h')) b'
    ]

    not-Below_top : (c : U) → parent c ≡ none → e.beq c folder ≡ false → ¬ Below folder c
    not-Below_top c h ne b = elim (Below-cases b) [
      | inl same ↦ absurd (ground (arith, (e.beq_iff c folder).1 same))
      | inr (q, h', b') ↦ absurd (ground (arith, h, h'))
    ]

    decides_at :
        (fuel : ℕ) (c : U) (b : Bool) (m : Option U)
        → ((p : U) (d : Bool)
            → is_descendant fuel db user folder p ≡ some d
            → (d ≡ true) ↔ Below folder p)
        → parent c ≡ m
        → e.beq c folder ≡ false
        → is_descendant (suc fuel) db user folder c ≡ some b
        → (b ≡ true) ↔ Below folder c
    unfolding is_descendant
    decides_at fuel c b none ih h ne r =
        (λ t. absurd (ground (arith, h, ne)), λ l. absurd (not-Below_top c h ne l))
    decides_at fuel c b (some p) ih h ne r =
        let (to, from) = ih p b (ground (arith, h, ne)) in
        (λ t. up h (to t), λ l. from (Below-next c p h ne l))

    decides_same :
        (fuel : ℕ) (c : U) (b : Bool)
        → e.beq c folder ≡ true
        → is_descendant (suc fuel) db user folder c ≡ some b
        → (b ≡ true) ↔ Below folder c
    unfolding is_descendant
    decides_same fuel c b same r = (
      λ t. subst (Below folder) (sym ((e.beq_iff c folder).0 same)) here,
      λ l. ground (arith, same),
    )

    -- A result of the loop is right.
    pub decides :
        (fuel : ℕ) (c : U) (b : Bool)
        → is_descendant fuel db user folder c ≡ some b
        → (b ≡ true) ↔ Below folder c
    decides zero c b r = absurd (unfold is_descendant in cc)
    decides (suc fuel) c b r = elim (Bool-cases (e.beq c folder)) [
      | inl same ↦ decides_same fuel c b same r
      | inr ne ↦ decides_at fuel c b (parent c) (λ p d. decides fuel p d) refl ne r
    ]

    ends_top :
        (fuel : ℕ) (c : U)
        → parent c ≡ none
        → 1 ≤ fuel
        → (b : Bool) × (is_descendant fuel db user folder c ≡ some b)
    unfolding is_descendant
    ends_top zero c h le = absurd (omega arith)
    ends_top (suc fuel) c h le = elim (Bool-cases (e.beq c folder)) [
      | inl same ↦ (true, ground (arith, same))
      | inr ne ↦ (false, ground (arith, ne, h))
    ]

    ends_up :
        (n fuel : ℕ) (c p : U)
        → parent c ≡ some p
        → ((k : ℕ) → n ≤ k → (b : Bool) × (is_descendant k db user folder p ≡ some b))
        → suc n ≤ fuel
        → (b : Bool) × (is_descendant fuel db user folder c ≡ some b)
    unfolding is_descendant
    ends_up n zero c p h ih le = absurd (omega arith)
    ends_up n (suc fuel) c p h ih le = elim (Bool-cases (e.beq c folder)) [
      | inl same ↦ (true, ground (arith, same))
      | inr ne ↦ let (b, r) = ih fuel (omega arith) in (b, ground (arith, ne, h, r))
    ]

    ends :
        {c : U}
        → Rooted c
        → (n : ℕ) × ((fuel : ℕ)
            → n ≤ fuel
            → (b : Bool) × (is_descendant fuel db user folder c ≡ some b))
    ends (top {c} h) = (1, λ fuel le. ends_top fuel c h le)
    ends (up {c} {p} h r) = let (n, ih) = ends r in (suc n, λ fuel le. ends_up n fuel c p h ih le)

  -- Where the way up from a folder comes to an end, enough fuel makes the loop end, and with any
  -- such fuel isDescendant answers whether that folder is, or lies below, the other one.
  pub is_descendant_iff :
      (folder c : U)
      → Rooted c
      → (n : ℕ) × ((fuel : ℕ)
          → n ≤ fuel
          → (b : Bool) × (is_descendant fuel db user folder c ≡ some b)
            × ((b ≡ true) ↔ Below folder c))
  is_descendant_iff folder c r =
      let (n, done) = ends folder r in
      (n, λ fuel le. let (b, run) = done fuel le in (b, run, decides folder fuel c b run))
