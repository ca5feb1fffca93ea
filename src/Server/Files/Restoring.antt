-- ===== src/Server/Files/Restoring.antt =====
-- handlers_versions.go of backend/cmd/api-svc: restoreFileVersion moves the flag, and no more.
use optiflow.Prelude.{
  ◌≡◌, refl, sym, ap, ◌∙◌, subst, inl, inr, true, some, List, [], ◌∷◌, map, Bool-cases,
  if◌then◌else◌, arith, Eq,
}
use optiflow.Server.Members.{IsRow, map-cong, map-same, map-map}
use optiflow.Server.Counting.{none-count, count_unique}
use optiflow.Server.Files.{
  File, row, lineage_root_id, resolve_owned_file, restore_target, restore_found,
  restore_file_version,
}
use optiflow.Server.Files.Lineages.{is_of, is_current_of, IsSound, same_row, in_lineage-is_of}
use optiflow.Server.Files.Tree.{Db}
use optiflow.Server.Files.Reached.{Services, Reach, Reach-IsSound}
use optiflow.Server.Files.Editing.{restore_file_version-IsSound}
use optiflow.Server.Files.Found.{found-IsRow}
use optiflow.Server.Files.Current.{restored, restore_map}

module _ {U : Type 0} ⦃e : Eq U⦄ where
  -- The row with the flag that makes exactly one row of a user's lineage current.
  abbrev pub flagged : U → U → U → File U → File U
  flagged user root id f = record f {
    is_current = if is_of user root f then e.beq f.id id else f.is_current;
  }

  pub resolve-map :
      (h : File U → File U) (user id : U) (files : List (File U)) (f : File U)
      → ((g : File U) → ((h g).id ≡ g.id) × ((h g).user_id ≡ g.user_id))
      → resolve_owned_file user id files ≡ some f
      → resolve_owned_file user id (map h files) ≡ some (h f)
  unfolding resolve_owned_file
  resolve-map h user id [] f k found = ground (arith, found)
  resolve-map h user id (g ∷ gs) f k found =
      ground (arith, found, k g, resolve-map h user id gs f k)

  module _ (user id version_id : U) (files : List (File U)) (f t : File U) (s : IsSound files)
      (found : resolve_owned_file user id files ≡ some f)
      (target : resolve_owned_file user version_id files ≡ some t)
      (together : lineage_root_id t ≡ lineage_root_id f) where
    restored-flagged :
        (g : File U)
        → IsRow g files
        → restored user (lineage_root_id t) t.id g ≡ flagged user (lineage_root_id f) version_id g
    restored-flagged g m =
        let (here, i, u) = found-IsRow user version_id files t target in
        elim (Bool-cases (e.beq g.id t.id)) [
          | inl y ↦
              let same : g ≡ t = same_row files g t s.shaped.keyed m here y in
              ground (
                arith,
                y,
                same,
                i,
                u,
                together,
                e.beq_iff t.user_id user,
                e.beq_iff (lineage_root_id t) (lineage_root_id f),
                e.beq_iff t.id version_id,
              )
          | inr n ↦ ground (arith, n, i, together, in_lineage-is_of files user t g s.shaped here m)
        ]

    restore_run : restore_file_version user id version_id files ≡ (
      map (flagged user (lineage_root_id f) version_id) files,
      row (record t { is_current = true }),
    )
    unfolding restore_file_version restore_found restore_target
    restore_run =
        ground (arith, found, target, together, e.beq_iff (lineage_root_id t) (lineage_root_id f))
        ∙ ap (λ r. (r, row (record t { is_current = true })))
            (restore_map user (lineage_root_id t) t.id files ∙ map-cong _ _ files restored-flagged)

  -- in a sound table, the flags of a lineage are those of its current row
  flags :
      (files : List (File U)) (user : U) (c g : File U)
      → IsSound files
      → IsRow c files
      → IsRow g files
      → c.user_id ≡ user
      → c.is_current ≡ true
      → flagged user (lineage_root_id c) c.id g ≡ g
  flags files user c g s m l u current =
      let here : is_of user (lineage_root_id c) c ≡ true =
        ground
          (arith, u, e.beq_iff c.user_id user, e.beq_iff (lineage_root_id c) (lineage_root_id c)) in
      elim (s.single user (lineage_root_id c)) [
        | inl z ↦
            absurd (ground (arith, here, none-count (is_of user (lineage_root_id c)) files z c m))
        | inr one ↦ elim (Bool-cases (is_of user (lineage_root_id c) g)) [
          | inr n ↦ ground (arith, n)
          | inl y ↦ elim (Bool-cases (g.is_current)) [
            | inl t ↦
                let same : g ≡ c =
                  count_unique (is_current_of user (lineage_root_id c)) files one g c l m
                    (ground (arith, y, t)) (ground (arith, here, current)) in
                ground (arith, y, t, same, e.beq_iff g.id c.id)
            | inr z ↦ elim (Bool-cases (e.beq g.id c.id)) [
              | inl q ↦
                  let same : g ≡ c = same_row files g c s.shaped.keyed l m q in
                  ground (arith, z, current, same)
              | inr n ↦ ground (arith, y, z, n)
            ]
          ]
        ]
      ]

  -- In a table that requests lead to, where the ids in a request of restoreFileVersion are of two
  -- rows of the user with the same root: the answer is the row of the version, marked as current,
  -- and in the table exactly one thing is changed, the flags of the rows of the user with that root,
  -- which say afterwards whether the row is the version asked for.
  pub restore_effect :
      {H : Type 0} (v : Services U) (db : Db U H) (user id version_id : U) (f t : File U)
      → Reach v db
      → resolve_owned_file user id db.files ≡ some f
      → resolve_owned_file user version_id db.files ≡ some t
      → lineage_root_id t ≡ lineage_root_id f
      → restore_file_version user id version_id db.files ≡ (
        map (flagged user (lineage_root_id f) version_id) db.files,
        row (record t { is_current = true }),
      )
  restore_effect v db user id version_id f t r found target together =
      restore_run user id version_id db.files f t (Reach-IsSound v r) found target together

  restore_back_sound :
      (files : List (File U)) (user id version_id : U) (f t : File U)
      → IsSound files
      → resolve_owned_file user id files ≡ some f
      → resolve_owned_file user version_id files ≡ some t
      → lineage_root_id t ≡ lineage_root_id f
      → f.is_current ≡ true
      → (restore_file_version user id id (restore_file_version user id version_id files).0).0
        ≡ files
  restore_back_sound files user id version_id f t s found target together current =
      let h = flagged user (lineage_root_id f) version_id in
      let run = restore_run user id version_id files f t s found target together in
      let (here, i, u) = found-IsRow user id files f found in
      let still : resolve_owned_file user id (map h files) ≡ some (h f) =
        resolve-map h user id files f (λ g. (refl, refl)) found in
      let sound : IsSound (map h files) =
        subst (λ r. IsSound r.0) run (restore_file_version-IsSound files s user id version_id) in
      ap (λ r. (restore_file_version user id id r.0).0) run
      ∙ ap (λ r. r.0) (restore_run user id id (map h files) (h f) (h f) sound still still refl)
      ∙ map-map (flagged user (lineage_root_id f) id) h files
      ∙ map-same _ files (λ g m.
        twice g
        ∙ ap (λ c. flagged user (lineage_root_id f) c g) (sym i)
        ∙ flags files user f g s here m u current)
    where
      twice :
          (g : File U)
          → flagged user (lineage_root_id f) id (flagged user (lineage_root_id f) version_id g)
            ≡ flagged user (lineage_root_id f) id g
      twice g = ground arith

  -- In a table that requests lead to: a restore of another version of a file, then one of the
  -- version that was current, bring back the table as it was.
  pub restore_back :
      {H : Type 0} (v : Services U) (db : Db U H) (user id version_id : U) (f t : File U)
      → Reach v db
      → resolve_owned_file user id db.files ≡ some f
      → resolve_owned_file user version_id db.files ≡ some t
      → lineage_root_id t ≡ lineage_root_id f
      → f.is_current ≡ true
      → (restore_file_version user id id (restore_file_version user id version_id db.files).0).0
        ≡ db.files
  restore_back v db user id version_id f t r =
      restore_back_sound db.files user id version_id f t (Reach-IsSound v r)
