-- ===== src/Server/Files/OneCurrent.antt =====
-- models/file.go: "exactly one true row per lineage at a time", in all tables that requests lead to.
use optiflow.Prelude.{
  ◌≡◌, ◌∙◌, inl, inr, true, ◌&&◌, List, All, ◌==◌, ==_iff, Bool-cases, arith, Eq,
}
use optiflow.Server.Members.{IsRow, All-IsRow}
use optiflow.Server.Counting.{count, count-cong, none-count}
use optiflow.Server.Files.{File, lineage_root_id, in_lineage}
use optiflow.Server.Files.Tree.{Db}
use optiflow.Server.Files.Lineages.{
  is_of, is_current_of, IsSound, same_row, count-id, in_lineage-is_of,
}
use optiflow.Server.Files.Reached.{Services, Reach, Reach-IsSound}

module _ {U : Type 0} ⦃e : Eq U⦄ where
  module _ (files : List (File U)) (s : IsSound files) (f : File U) (m : IsRow f files) where
    itself : is_of f.user_id (lineage_root_id f) f ≡ true
    itself =
        ground
          (arith, e.beq_iff f.user_id f.user_id, e.beq_iff (lineage_root_id f) (lineage_root_id f))

    one_current : count (λ g. in_lineage f.user_id (lineage_root_id f) g && g.is_current) files ≡ 1
    one_current =
        count-cong _ (is_current_of f.user_id (lineage_root_id f)) files
          (λ g l. ground (arith, in_lineage-is_of files f.user_id f g s.shaped m l))
        ∙ (elim (s.single f.user_id (lineage_root_id f)) [
          | inl z ↦
              absurd (
                ground
                  (arith, itself, none-count (is_of f.user_id (lineage_root_id f)) files z f m))
          | inr one ↦ one
        ])

    one_number :
        count (λ g. in_lineage f.user_id (lineage_root_id f) g && g.version == f.version) files ≡ 1
    one_number =
        count-cong _ (λ g. e.beq g.id f.id) files
          (λ g l. elim (Bool-cases (e.beq g.id f.id)) [
            | inl y ↦
                let same : g ≡ f = same_row files g f s.shaped.keyed l m y in
                ground (
                  arith,
                  y,
                  same,
                  itself,
                  in_lineage-is_of files f.user_id f g s.shaped m l,
                  ==_iff g.version f.version,
                )
            | inr n ↦ ground (
              arith,
              n,
              s.shaped.numbered f g m l,
              e.beq_iff g.id f.id,
              in_lineage-is_of files f.user_id f g s.shaped m l,
              ==_iff g.version f.version,
            )
          ])
        ∙ count-id files f s.shaped.keyed m

  -- In every table of files that requests, each handled as a whole, lead to from an empty one: of
  -- every row, by the query for its lineage, exactly one row of its user is current, and exactly one
  -- has its version number; and no other row has its id.
  pub Reach-one_current :
      {H : Type 0} (v : Services U) (db : Db U H)
      → Reach v db
      → All
          (λ f.
            (count (λ g. in_lineage f.user_id (lineage_root_id f) g && g.is_current) db.files ≡ 1)
            × (count
                  (λ g. in_lineage f.user_id (lineage_root_id f) g && g.version == f.version)
                  db.files
                ≡ 1)
            × (count (λ g. e.beq g.id f.id) db.files ≡ 1))
          db.files
  Reach-one_current v db r =
      let s = Reach-IsSound v r in
      All-IsRow _ db.files (λ f m. (
        one_current db.files s f m,
        one_number db.files s f m,
        count-id db.files f s.shaped.keyed m,
      ))
