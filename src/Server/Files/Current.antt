-- ===== src/Server/Files/Current.antt =====
-- handlers_file.go and handlers_versions.go: the updates of the table of files keep one current row
-- in every lineage.
use optiflow.Prelude.{
  ◌≡◌, refl, sym, ap, ◌∙◌, subst, inl, inr, true, false, List, [], ◌∷◌, map, Bool-cases,
  if◌then◌else◌, arith, Eq,
}
use optiflow.Server.Members.{IsRow}
use optiflow.Server.Counting.{count-map}
use optiflow.Server.Files.{File, lineage_root_id, in_lineage, supersede, make_current, save_file}
use optiflow.Server.Files.Lineages.{
  is_of, is_current_of, IsShaped, IsSound, same_row, count-id, in_lineage-is_of,
}
use optiflow.Server.Files.Shapes.{IsUpdate, update-is_of, map-IsShaped}

module _ {U : Type 0} ⦃e : Eq U⦄ where
  -- an update that changes no flag
  plain-IsSound :
      (h : File U → File U) (files : List (File U))
      → ((f : File U) → IsRow f files → IsUpdate f (h f) × ((h f).is_current ≡ f.is_current))
      → IsSound files
      → IsSound (map h files)
  plain-IsSound h files q s = record {
    shaped = map-IsShaped h files (λ f m. (q f m).0) s.shaped;
    single = λ user root. ground (
      arith,
      s.single user root,
      count-map (is_of user root) (is_of user root) h files
          (λ f m. update-is_of user root f (h f) (q f m).0),
      count-map (is_current_of user root) (is_current_of user root) h files
          (λ f m. ground (arith, update-is_of user root f (h f) (q f m).0, (q f m).1)),
    );
  }

  -- `Save` of a row that was read, with its id, user, parent, version and flag
  pub save_file-IsSound :
      (f g : File U) (files : List (File U))
      → IsRow f files
      → IsUpdate f g
      → g.is_current ≡ f.is_current
      → IsSound files
      → IsSound (save_file g files)
  unfolding save_file
  save_file-IsSound f g files m (i, u, p, v) c s =
      plain-IsSound _ files
        (λ r l. elim (Bool-cases (e.beq r.id g.id)) [
          | inl y ↦
              let same : r ≡ f = same_row files r f s.shaped.keyed l m (ground (arith, y, i)) in
              ground (arith, y, same, i, u, p, v, c)
          | inr n ↦ ground (arith, n)
        ])
        s

  -- restoreFileVersion's two statements on a row
  abbrev pub restored : U → U → U → File U → File U
  restored user root id f =
      let g = if in_lineage user root f then record f { is_current = false } else f in
      if e.beq g.id id then record g { is_current = true } else g

  module _ (files : List (File U)) (s : IsShaped files) (user : U) (t : File U)
      (row : IsRow t files) where
    restored-IsUpdate : (f : File U) → IsUpdate f (restored user (lineage_root_id t) t.id f)
    restored-IsUpdate f = ground arith

    restored_flag :
        (f : File U)
        → IsRow f files
        → (restored user (lineage_root_id t) t.id f).is_current ≡ (
            if e.beq f.id t.id
            then true
            else (if is_of user (lineage_root_id t) f then false else f.is_current))
    restored_flag f m = ground (arith, in_lineage-is_of files user t f s row m)

    -- after a restore, the current rows of the lineage are those with the id
    restored_here :
        (f : File U)
        → IsRow f files
        → t.user_id ≡ user
        → is_current_of user (lineage_root_id t) (restored user (lineage_root_id t) t.id f)
          ≡ e.beq f.id t.id
    restored_here f m u = elim (Bool-cases (e.beq f.id t.id)) [
      | inl y ↦
          let same : f ≡ t = same_row files f t s.keyed m row y in
          ground (
            arith,
            y,
            same,
            u,
            restored_flag f m,
            update-is_of user (lineage_root_id t) f (restored user (lineage_root_id t) t.id f)
                (restored-IsUpdate f),
            e.beq_iff t.user_id user,
            e.beq_iff (lineage_root_id t) (lineage_root_id t),
          )
      | inr n ↦ ground (
        arith,
        n,
        restored_flag f m,
        update-is_of user (lineage_root_id t) f (restored user (lineage_root_id t) t.id f)
            (restored-IsUpdate f),
      )
    ]

    -- and those of another lineage are those that were
    restored_elsewhere :
        (other root : U) (f : File U)
        → IsRow f files
        → t.user_id ≡ user
        → is_of other root t ≡ false
        → is_current_of other root (restored user (lineage_root_id t) t.id f)
          ≡ is_current_of other root f
    restored_elsewhere other root f m u n =
        let is =
          update-is_of other root f (restored user (lineage_root_id t) t.id f)
            (restored-IsUpdate f) in
        elim (Bool-cases (e.beq f.id t.id)) [
          | inl y ↦
              let same : f ≡ t = same_row files f t s.keyed m row y in ground (arith, n, same, is)
          | inr d ↦ ground (
            arith,
            d,
            n,
            u,
            is,
            restored_flag f m,
            e.beq_iff f.user_id user,
            e.beq_iff f.user_id other,
            e.beq_iff user other,
            e.beq_iff (lineage_root_id f) root,
            e.beq_iff (lineage_root_id t) root,
            e.beq_iff (lineage_root_id f) (lineage_root_id t),
          )
        ]

  pub restore_map :
      (user root id : U) (files : List (File U))
      → make_current id (supersede user root files) ≡ map (restored user root id) files
  unfolding make_current supersede
  restore_map user root id [] = refl
  restore_map user root id (f ∷ fs) =
      ap (λ r. restored user root id f ∷ r) (restore_map user root id fs)

  -- restoreFileVersion's transaction
  pub restore-IsSound :
      (files : List (File U)) (user : U) (t : File U)
      → IsRow t files
      → t.user_id ≡ user
      → IsSound files
      → IsSound (make_current t.id (supersede user (lineage_root_id t) files))
  restore-IsSound files user t row u s =
      let h = restored user (lineage_root_id t) t.id in
      subst IsSound (sym (restore_map user (lineage_root_id t) t.id files)) (record {
        shaped =
            map-IsShaped h files (λ f m. restored-IsUpdate files s.shaped user t row f) s.shaped;
        single = λ other root. elim (Bool-cases (is_of other root t)) [
          | inl y ↦ inr (
              count-map (is_current_of other root) (λ f. e.beq f.id t.id) h files
                (λ f m. ground (
                  arith,
                  y,
                  u,
                  e.beq_iff t.user_id other,
                  e.beq_iff (lineage_root_id t) root,
                  restored_here files s.shaped user t row f m u,
                ))
              ∙ count-id files t s.shaped.keyed row)
          | inr n ↦ ground (
            arith,
            s.single other root,
            count-map (is_of other root) (is_of other root) h files (λ f m.
                update-is_of other root f (restored user (lineage_root_id t) t.id f)
                  (restored-IsUpdate files s.shaped user t row f)),
            count-map (is_current_of other root) (is_current_of other root) h files
                (λ f m. restored_elsewhere files s.shaped user t row other root f m u n),
          )
        ];
      })
