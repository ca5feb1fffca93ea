-- ===== src/Server/Files/Superseding.antt =====
-- handlers.go and handlers_versions.go of backend/cmd/upload-svc: a new row of the table of files is
-- the current one of its lineage.
use optiflow.Prelude.{
  ◌≡◌, refl, ◌∙◌, inl, inr, true, false, ◌&&◌, none, List, [], ◌∷◌, ◌++◌, map, Bool-cases,
  if◌then◌else◌, arith, Eq,
}
use optiflow.Server.Members.{IsRow}
use optiflow.Server.Counting.{count-append, count-map, count-none}
use optiflow.Server.Files.{File, lineage_root_id, in_lineage, supersede}
use optiflow.Server.Files.Uploads.{add_version}
use optiflow.Server.Files.Lineages.{is_of, is_current_of, IsShaped, IsSound, in_lineage-is_of}
use optiflow.Server.Files.Added.{append-IsShaped}
use optiflow.Server.Files.Shapes.{IsUpdate, update-is_of, map-IsShaped, IsNew, Fits, map-Fits}

module _ {U : Type 0} ⦃e : Eq U⦄ where
  -- a row of another lineage than that which is superseded is left as it was
  superseded_elsewhere :
      (files : List (File U)) (s : IsShaped files) (user other root : U) (t f : File U)
      → IsRow t files
      → IsRow f files
      → (e.beq user other && e.beq (lineage_root_id t) root) ≡ false
      → is_of other root f ≡ true
      → in_lineage user (lineage_root_id t) f ≡ false
  superseded_elsewhere files s user other root t f row m n h = ground (
    arith,
    n,
    h,
    in_lineage-is_of files user t f s row m,
    e.beq_iff f.user_id user,
    e.beq_iff f.user_id other,
    e.beq_iff user other,
    e.beq_iff (lineage_root_id f) root,
    e.beq_iff (lineage_root_id t) root,
    e.beq_iff (lineage_root_id f) (lineage_root_id t),
  )

  module _ (files : List (File U)) (s : IsShaped files) (t n : File U) (row : IsRow t files)
      (root : lineage_root_id n ≡ lineage_root_id t) (current : n.is_current ≡ true) where
    abbrev old : File U → File U
    old f =
        if in_lineage n.user_id (lineage_root_id t) f then record f { is_current = false } else f

    old-IsUpdate : (f : File U) → IsUpdate f (old f)
    old-IsUpdate f = ground arith

    old_flag :
        (other key : U) (f : File U)
        → IsRow f files
        → is_current_of other key (old f)
          ≡ (if is_of other key n then false else is_current_of other key f)
    old_flag other key f m = elim (Bool-cases (is_of other key f)) [
      | inr z ↦ ground (arith, z, update-is_of other key f (old f) (old-IsUpdate f))
      | inl y ↦ elim (Bool-cases (is_of other key n)) [
        | inl b ↦ ground (
          arith,
          y,
          b,
          root,
          update-is_of other key f (old f) (old-IsUpdate f),
          in_lineage-is_of files n.user_id t f s row m,
          e.beq_iff f.user_id other,
          e.beq_iff n.user_id other,
          e.beq_iff f.user_id n.user_id,
          e.beq_iff (lineage_root_id f) key,
          e.beq_iff (lineage_root_id n) key,
          e.beq_iff (lineage_root_id f) (lineage_root_id t),
        )
        | inr d ↦ ground (
          arith,
          y,
          d,
          update-is_of other key f (old f) (old-IsUpdate f),
          superseded_elsewhere files s n.user_id other key t f row m (ground (arith, d, root)) y,
        )
      ]
    ]

  -- presignVersion's transaction
  pub add_version-IsSound :
      (files : List (File U)) (t n : File U)
      → IsRow t files
      → lineage_root_id n ≡ lineage_root_id t
      → n.is_current ≡ true
      → Fits files n
      → IsSound files
      → IsSound (add_version n.user_id (lineage_root_id t) n files)
  unfolding add_version supersede
  add_version-IsSound files t n row root current fits s =
      let h = old files s.shaped t n row root current in
      record {
        shaped =
            append-IsShaped (map h files) n
              (map-Fits h files n (λ f m. old-IsUpdate files s.shaped t n row root current f) fits)
              (map-IsShaped h files (λ f m. old-IsUpdate files s.shaped t n row root current f)
                s.shaped);
        single = λ other key.
            let flags = old_flag files s.shaped t n row root current other key in
            elim (Bool-cases (is_of other key n)) [
              | inl y ↦ inr (
                  count-append (is_current_of other key) (map h files) (n ∷ [])
                  ∙ ground (
                    arith,
                    y,
                    current,
                    count-map (is_current_of other key) (λ f. false) h files
                        (λ f m. ground (arith, y, flags f m)),
                    count-none (λ f. false) files (λ f m. refl),
                  ))
              | inr d ↦ ground (
                arith,
                d,
                s.single other key,
                count-append (is_of other key) (map h files) (n ∷ []),
                count-append (is_current_of other key) (map h files) (n ∷ []),
                count-map (is_of other key) (is_of other key) h files (λ f m.
                    update-is_of other key f (h f)
                      (old-IsUpdate files s.shaped t n row root current f)),
                count-map (is_current_of other key) (is_current_of other key) h files
                    (λ f m. ground (arith, d, flags f m)),
              )
            ];
      }

  -- the row of a new file
  pub append-IsSound :
      (files : List (File U)) (n : File U)
      → IsNew n.id files
      → n.parent_id ≡ none
      → n.is_current ≡ true
      → IsSound files
      → IsSound (files ++ n ∷ [])
  append-IsSound files n new top current s =
      let root : lineage_root_id n ≡ n.id = ground (arith, top) in
      record {
        shaped =
            append-IsShaped files n
              (record {
                new = new;
                own = λ q. top;
                roots = λ g m q. absurd (ground (arith, q, root, (new g m).0, e.beq_iff g.id n.id));
                later = λ g m h.
                    absurd
                      (ground (arith, root, h, (new g m).1, e.beq_iff (lineage_root_id g) n.id));
              })
              s.shaped;
        single = λ user key. elim (Bool-cases (is_of user key n)) [
          | inl y ↦ inr (
              count-append (is_current_of user key) files (n ∷ [])
              ∙ ground (
                arith,
                y,
                current,
                count-none (is_current_of user key) files (λ f m. ground (
                  arith,
                  y,
                  root,
                  (new f m).1,
                  e.beq_iff (lineage_root_id n) key,
                  e.beq_iff (lineage_root_id f) key,
                  e.beq_iff (lineage_root_id f) n.id,
                )),
              ))
          | inr d ↦ ground (
            arith,
            d,
            s.single user key,
            count-append (is_of user key) files (n ∷ []),
            count-append (is_current_of user key) files (n ∷ []),
          )
        ];
      }
