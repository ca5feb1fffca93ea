-- ===== src/Server/Files/Added.antt =====
-- models/file.go: a new row that fits keeps the ids, the roots and the version numbers right.
use optiflow.Prelude.{◌≡◌, refl, sym, ap, ◌∙◌, inl, inr, true, none, List, [], ◌∷◌, ◌++◌, arith, Eq}
use optiflow.Server.Members.{IsRow, append-IsRow}
use optiflow.Server.Files.{File, lineage_root_id}
use optiflow.Server.Files.Lineages.{is_of, IsKeyed, IsShaped}
use optiflow.Server.Files.Shapes.{IsNew, Fits}

module _ {U : Type 0} ⦃e : Eq U⦄ where
  append-IsKeyed :
      (files : List (File U)) (n : File U)
      → IsNew n.id files
      → IsKeyed files
      → IsKeyed (files ++ n ∷ [])
  append-IsKeyed [] n new k = (λ g m. absurd m, tt)
  append-IsKeyed (f ∷ fs) n new (l, k) = (
    λ g m. elim (append-IsRow g fs (n ∷ []) m) [
      | inl r ↦ l g r
      | inr (inl same) ↦ ground (arith, (new f (inl refl)).0, ap (λ t. t.id) same)
      | inr (inr r) ↦ absurd r
    ],
    append-IsKeyed fs n (λ g m. new g (inr m)) k,
  )

  module _ (files : List (File U)) (n : File U) (fits : Fits files n) (s : IsShaped files) where
    append_flat :
        (f g : File U)
        → IsRow f (files ++ n ∷ [])
        → IsRow g (files ++ n ∷ [])
        → g.id ≡ lineage_root_id f
        → g.parent_id ≡ none
    append_flat f g m l r = elim (append-IsRow f files (n ∷ []) m) [
      | inl a ↦ elim (append-IsRow g files (n ∷ []) l) [
        | inl b ↦ s.flat f g a b r
        | inr (inl y) ↦ absurd (
            ground
              (arith, (fits.new f a).1, e.beq_iff (lineage_root_id f) n.id, r, ap (λ t. t.id) y))
        | inr (inr b) ↦ absurd b
      ]
      | inr (inl x) ↦ elim (append-IsRow g files (n ∷ []) l) [
        | inl b ↦ fits.roots g b (r ∙ ap lineage_root_id x)
        | inr (inl y) ↦
            ap (λ t. t.parent_id) y ∙ fits.own (ap (λ t. t.id) (sym y) ∙ r ∙ ap lineage_root_id x)
        | inr (inr b) ↦ absurd b
      ]
      | inr (inr a) ↦ absurd a
    ]

    append_numbered :
        (f g : File U)
        → IsRow f (files ++ n ∷ [])
        → IsRow g (files ++ n ∷ [])
        → is_of f.user_id (lineage_root_id f) g ≡ true
        → g.version ≡ f.version
        → g.id ≡ f.id
    append_numbered f g m l r v = elim (append-IsRow f files (n ∷ []) m) [
      | inl a ↦ elim (append-IsRow g files (n ∷ []) l) [
        | inl b ↦ s.numbered f g a b r v
        | inr (inl y) ↦ absurd (
            ground (
              arith,
              fits.later f a,
              y,
              r,
              v,
              e.beq_iff n.user_id f.user_id,
              e.beq_iff f.user_id n.user_id,
              e.beq_iff (lineage_root_id n) (lineage_root_id f),
              e.beq_iff (lineage_root_id f) (lineage_root_id n),
            ))
        | inr (inr b) ↦ absurd b
      ]
      | inr (inl x) ↦ elim (append-IsRow g files (n ∷ []) l) [
        | inl b ↦ absurd (ground (arith, fits.later g b, x, r, v))
        | inr (inl y) ↦ ap (λ t. t.id) (y ∙ sym x)
        | inr (inr b) ↦ absurd b
      ]
      | inr (inr a) ↦ absurd a
    ]

    pub append-IsShaped : IsShaped (files ++ n ∷ [])
    append-IsShaped = record {
      keyed = append-IsKeyed files n fits.new s.keyed;
      flat = append_flat;
      numbered = append_numbered;
    }
