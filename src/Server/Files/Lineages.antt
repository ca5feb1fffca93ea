-- ===== src/Server/Files/Lineages.antt =====
-- models/file.go: the lineages of files, of which each has one current row.
use optiflow.Prelude.{
  ◌≡◌, sym, ap, ◌∙◌, ◌⊎◌, inl, inr, Bool, true, false, ◌&&◌, none, List, [], ◌∷◌, arith, Eq,
}
use optiflow.Server.Members.{IsRow}
use optiflow.Server.Counting.{count, count-none}
use optiflow.Server.Files.{File, lineage_root_id, in_lineage}

module _ {U : Type 0} ⦃e : Eq U⦄ where
  -- A row belongs to a user's lineage, by lineageRootID.
  abbrev pub is_of : U → U → File U → Bool
  is_of user root f = e.beq f.user_id user && e.beq (lineage_root_id f) root

  abbrev pub is_current_of : U → U → File U → Bool
  is_current_of user root f = is_of user root f && f.is_current

  -- No id stands twice.
  abbrev pub IsKeyed : List (File U) → Type 0
  IsKeyed [] = Unit
  IsKeyed (f ∷ fs) = ((g : File U) → IsRow g fs → e.beq f.id g.id ≡ false) × IsKeyed fs

  -- Ids are primary keys, the root of a lineage has no parent, and no two rows of a lineage have
  -- the same version.
  pub record IsShaped (files : List (File U)) : Type 0 where
    pub keyed : IsKeyed files
    pub flat :
        (f g : File U)
        → IsRow f files
        → IsRow g files
        → g.id ≡ lineage_root_id f
        → g.parent_id ≡ none
    pub numbered :
        (f g : File U)
        → IsRow f files
        → IsRow g files
        → is_of f.user_id (lineage_root_id f) g ≡ true
        → g.version ≡ f.version
        → g.id ≡ f.id

  -- Every lineage of every user has exactly one current row, or no row.
  abbrev pub IsSingle : List (File U) → Type 0
  IsSingle files =
      (user root : U)
      → (count (is_of user root) files ≡ 0) ⊎ (count (is_current_of user root) files ≡ 1)

  pub record IsSound (files : List (File U)) : Type 0 where
    pub shaped : IsShaped files
    pub single : IsSingle files

  pub same_row :
      (files : List (File U)) (f g : File U)
      → IsKeyed files
      → IsRow f files
      → IsRow g files
      → e.beq f.id g.id ≡ true
      → f ≡ g
  same_row [] f g k l m q = absurd l
  same_row (h ∷ hs) f g (n, k) (inl x) (inl y) q = x ∙ sym y
  same_row (h ∷ hs) f g (n, k) (inl x) (inr m) q =
      absurd (ground (arith, q, ap (λ r. r.id) x, n g m))
  same_row (h ∷ hs) f g (n, k) (inr m) (inl y) q =
      absurd (ground (arith, q, ap (λ r. r.id) y, n f m, e.beq_iff f.id h.id, e.beq_iff h.id f.id))
  same_row (h ∷ hs) f g (n, k) (inr l) (inr m) q = same_row hs f g k l m q

  -- exactly one row has the id of a row
  pub count-id :
      (files : List (File U)) (t : File U)
      → IsKeyed files
      → IsRow t files
      → count (λ f. e.beq f.id t.id) files ≡ 1
  count-id [] t k m = absurd m
  count-id (h ∷ hs) t (n, k) (inl same) = ground (
    arith,
    ap (λ r. r.id) same,
    e.beq_iff h.id t.id,
    count-none (λ f. e.beq f.id t.id) hs
        (λ f m.
          ground (arith, n f m, ap (λ r. r.id) same, e.beq_iff f.id t.id, e.beq_iff h.id f.id)),
  )
  count-id (h ∷ hs) t (n, k) (inr m) = ground (arith, n t m, count-id hs t k m)

  -- the `WHERE` of a lineage finds the rows that belong to it
  pub in_lineage-is_of :
      (files : List (File U)) (user : U) (t f : File U)
      → IsShaped files
      → IsRow t files
      → IsRow f files
      → in_lineage user (lineage_root_id t) f ≡ is_of user (lineage_root_id t) f
  in_lineage-is_of files user t f s m k =
      ground (arith, s.flat t f m k, e.beq_iff f.id (lineage_root_id t))
