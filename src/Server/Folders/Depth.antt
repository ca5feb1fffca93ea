-- ===== src/Server/Folders/Depth.antt =====
-- handlers_folder.go: how deep the folders of a forest lie, and that deleteFolder therefore
-- answers.
use optiflow.Prelude.{
  ℕ, zero, suc, ◌+◌, ◌≤◌, ◌≡◌, refl, sym, ap, ◌∙◌, subst, inl, inr, none, some, List, [], ◌∷◌,
  arith, Eq,
}
use optiflow.Server.Folders.{Folder, parent_of}
use optiflow.Server.Folders.Walk.{parent, Rooted}
use optiflow.Server.Folders.Forest.{IsForest}
use optiflow.Server.Folders.Keyed.{IsKeyed}
use optiflow.Server.Folders.Removal.{Low}
use optiflow.Server.Members.{IsRow}

module _ {U : Type 0} ⦃e : Eq U⦄ where
  module _ (db : List (Folder U)) (user : U) where
    -- The number of folders above a folder.
    data Depth : U → ℕ → Type 0 where
      at_top : {c : U} → parent db user c ≡ none → Depth c 0
      under : {c p : U} {n : ℕ} → parent db user c ≡ some p → Depth p n → Depth c (suc n)

    Rooted-Depth : {c : U} → Rooted db user c → (n : ℕ) × Depth c n
    Rooted-Depth (Rooted.top h) = (0, at_top h)
    Rooted-Depth (Rooted.up h r) = let (n, d) = Rooted-Depth r in (suc n, under h d)

    Depth-below :
        {c p : U} {n : ℕ}
        → Depth c n
        → parent db user c ≡ some p
        → (m : ℕ) × (n ≡ suc m) × Depth p m
    Depth-below (at_top h) k = absurd (ground (arith, h, k))
    Depth-below (under {c} {p} {n} h d) k =
        (n, refl, subst (λ q. Depth q n) (ground (arith, h, k)) d)

    Depth-top : {c : U} {n : ℕ} → Depth c n → parent db user c ≡ none → n ≡ 0
    Depth-top (at_top h) k = refl
    Depth-top (under h d) k = absurd (ground (arith, h, k))

    Depth-unique : {c : U} {n m : ℕ} → Depth c n → Depth c m → n ≡ m
    Depth-unique (at_top h) d = sym (Depth-top d h)
    Depth-unique (under h d) d' =
        let (m, q, d'') = Depth-below d' h in ap suc (Depth-unique d d'') ∙ sym q

    deepest :
        IsForest db
        → (rs : List (Folder U))
        → (most : ℕ) × ((r : Folder U) → IsRow r rs → (n : ℕ) → Depth r.id n → n ≤ most)
    deepest forest [] = (0, λ r h. absurd h)
    deepest forest (s ∷ ss) =
        let (n, d) = Rooted-Depth (forest user s.id) in
        let (most, all) = deepest forest ss in
        (
          n + most,
          λ r h m d'. elim h [
            | inl same ↦ let q = Depth-unique d (subst (λ f. Depth f.id m) same d') in omega arith
            | inr k ↦ let le = all r k m d' in omega arith
          ],
        )

    module _ (keyed : IsKeyed db) (most : ℕ)
        (all : (r : Folder U) → IsRow r db → (n : ℕ) → Depth r.id n → n ≤ most) where
      child_parent :
          (c : Folder U) (id : U)
          → IsRow c db
          → c.user_id ≡ user
          → c.parent_id ≡ some id
          → parent db user c.id ≡ some id
      child_parent c id row u p =
          subst (λ v. parent db v c.id ≡ some id) u (ap parent_of (keyed.finds c row) ∙ p)

      Depth-Low : (k d : ℕ) (id : U) → Depth id d → most ≤ d + k → Low db user db (suc k) id
      Depth-Low zero d id h le = Low.low {id = id} (λ c row u p.
          let deep = all c row (suc d) (under (child_parent c id row u p) h) in
          absurd (ground arith))
      Depth-Low (suc k) d id h le = Low.low {id = id} (λ c row u p.
          Depth-Low k (suc d) c.id (under (child_parent c id row u p) h) (omega arith))

    -- In a forest without repeated ids the ways down from every folder are bounded.
    pub forest-Low : IsKeyed db → IsForest db → (id : U) → (n : ℕ) × Low db user db n id
    forest-Low keyed forest id =
        let (most, all) = deepest forest db in
        let (d, h) = Rooted-Depth (forest user id) in
        (suc most, Depth-Low keyed most all most d id h (omega arith))
