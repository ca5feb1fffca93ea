-- ===== src/Server/Files/Dropping.antt =====
-- handlers_file.go and handlers_folder.go: the rows that the deletions of files take out.
use optiflow.Prelude.{◌≡◌, ◌∙◌, inl, inr, Bool, true, false, List, filter, Bool-cases, arith, Eq}
use optiflow.Server.Members.{IsRow, filter-IsRow}
use optiflow.Server.Counting.{count, count-filter, count-none, none-count, count-some}
use optiflow.Server.Files.{File, lineage_root_id}
use optiflow.Server.Files.Lineages.{is_of, is_current_of, IsSingle, IsSound}
use optiflow.Server.Files.Shapes.{filter-IsShaped}

module _ {U : Type 0} ⦃e : Eq U⦄ where
  -- A test that keeps a lineage as a whole, or nothing of it.
  abbrev pub IsWhole : (File U → Bool) → List (File U) → Type 0
  IsWhole keep files =
      (f g : File U)
      → IsRow f files
      → IsRow g files
      → is_of f.user_id (lineage_root_id f) g ≡ true
      → keep g ≡ keep f

  module _ (keep : File U → Bool) (files : List (File U)) (whole : IsWhole keep files) where
    dropped_none :
        (user root : U) (f : File U)
        → IsRow f files
        → is_of user root f ≡ true
        → keep f ≡ false
        → count (is_of user root) (filter keep files) ≡ 0
    dropped_none user root f m y n = count-none (is_of user root) (filter keep files) (λ g l.
        let (row, k) = filter-IsRow keep g files l in
        ground (
          arith,
          y,
          n,
          k,
          whole f g m row,
          e.beq_iff f.user_id user,
          e.beq_iff g.user_id user,
          e.beq_iff g.user_id f.user_id,
          e.beq_iff (lineage_root_id f) root,
          e.beq_iff (lineage_root_id g) root,
          e.beq_iff (lineage_root_id g) (lineage_root_id f),
        ))

    kept_all :
        (user root : U) (f : File U)
        → IsRow f files
        → is_of user root f ≡ true
        → keep f ≡ true
        → count (is_current_of user root) (filter keep files)
          ≡ count (is_current_of user root) files
    kept_all user root f m y k = count-filter (is_current_of user root) keep files (λ g l h.
        ground (
          arith,
          y,
          k,
          h,
          whole f g m l,
          e.beq_iff f.user_id user,
          e.beq_iff g.user_id user,
          e.beq_iff g.user_id f.user_id,
          e.beq_iff (lineage_root_id f) root,
          e.beq_iff (lineage_root_id g) root,
          e.beq_iff (lineage_root_id g) (lineage_root_id f),
        ))

    filter-IsSingle : IsSingle files → IsSingle (filter keep files)
    filter-IsSingle s user root = elim (s user root) [
      | inl z ↦ inl (
          count-none (is_of user root) (filter keep files)
            (λ g l. none-count (is_of user root) files z g (filter-IsRow keep g files l).0))
      | inr one ↦
          let (f, m, h) = count-some (is_current_of user root) files (ground (arith, one)) in
          elim (Bool-cases (keep f)) [
            | inl y ↦ inr (kept_all user root f m (ground (arith, h)) y ∙ one)
            | inr n ↦ inl (dropped_none user root f m (ground (arith, h)) n)
          ]
    ]

    pub filter-IsSound : IsSound files → IsSound (filter keep files)
    filter-IsSound s = record {
      shaped = filter-IsShaped keep files s.shaped;
      single = filter-IsSingle s.single;
    }
