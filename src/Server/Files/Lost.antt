-- ===== src/Server/Files/Lost.antt =====
-- handlers_folder.go and handlers_versions.go of backend/cmd/api-svc: deleteFolder leaves the older
-- versions of files that have moved out of the folder, and restoreFileVersion brings one back there.
use optiflow.Prelude.{
  ◌≡◌, refl, ap, ◌∙◌, inl, inr, true, false, Option, none, some, List, [], map, any, is_some,
  Bool-cases, arith, Eq,
}
use optiflow.Server.Members.{IsRow, filter-IsRow, map-IsRow}
use optiflow.Server.Folders.{Folder, no_content, resolve_owned_folder, children_of, delete_row}
use optiflow.Server.Folders.Rows.{delete_gone}
use optiflow.Server.Files.{
  File, lineage_root_id, resolve_owned_file, restore_file_version, list_files, is_placed,
}
use optiflow.Server.Files.Tree.{
  Db, current_in, lineages_of, files_in, drop_gone, delete_contents, delete_children, delete_tree,
  answered, delete_found_files, delete_folder_files,
}
use optiflow.Server.Files.Lineages.{IsSound, same_row}
use optiflow.Server.Files.Deleted.{any-none}
use optiflow.Server.Files.Found.{found-IsRow}
use optiflow.Server.Files.Restoring.{flagged, restore_effect, resolve-map}
use optiflow.Server.Files.Reached.{Services, Reach, Reach-IsSound}

module _ {U : Type 0} ⦃e : Eq U⦄ where
  -- The place of a listing that a user can ask for: the top, or a folder of the user.
  abbrev pub IsPlace : U → Option U → List (Folder U) → Type 0
  IsPlace user none folders = Unit
  IsPlace user (some p) folders = is_some (resolve_owned_folder user p folders) ≡ true

  placed_in :
      (user a : U) (folders : List (Folder U)) (p : Option U)
      → IsPlace user p (delete_row user a folders)
      → is_placed p (some a) ≡ false
  placed_in user a folders none place = refl
  placed_in user a folders (some q) place = elim (Bool-cases (e.beq a q)) [
    | inr n ↦ n
    | inl y ↦ absurd (
        ground (
          arith,
          place,
          delete_gone user q user a folders (ground (arith, y, e.beq_iff user user)),
        ))
  ]

  -- a row in a deleted folder is in no listing
  not_listed :
      (user root a version_id : U) (files : List (File U)) (folders : List (Folder U)) (t : File U)
      (p : Option U)
      → IsSound files
      → IsRow t files
      → t.id ≡ version_id
      → t.folder_id ≡ some a
      → IsPlace user p (delete_row user a folders)
      → any
          (λ g. e.beq g.id version_id)
          (list_files user p (map (flagged user root version_id) files))
        ≡ false
  unfolding list_files
  not_listed user root a version_id files folders t p s m i inside place =
      any-none (λ g. e.beq g.id version_id)
        (list_files user p (map (flagged user root version_id) files))
        (λ g l.
          let (k, test) = filter-IsRow _ g (map (flagged user root version_id) files) l in
          let (h, k2, same) = map-IsRow (flagged user root version_id) g files k in
          elim (Bool-cases (e.beq g.id version_id)) [
            | inr n ↦ n
            | inl y ↦
                let row : h ≡ t =
                  same_row files h t s.shaped.keyed k2 m
                    (ground (arith, y, same, i, e.beq_iff h.id t.id, e.beq_iff h.id version_id)) in
                absurd (ground (arith, test, same, row, inside, placed_in user a folders p place))
          ])

module _ {U H : Type 0} ⦃e : Eq U⦄ where
  -- a folder with no folder below it, and no current file in it
  delete_bare :
      (user a : U) (d : Folder U) (db : Db U H)
      → resolve_owned_folder user a db.folders ≡ some d
      → children_of user a db.folders ≡ []
      → current_in user a db.files ≡ []
      → delete_folder_files 1 user a db
        ≡ (record db { folders = delete_row user a db.folders }, [], no_content)
  unfolding delete_folder_files delete_found_files answered delete_tree delete_children
      delete_contents files_in drop_gone lineages_of
  delete_bare user a d db found leaf bare = ground (arith, found, leaf, bare)

  -- In a table that requests lead to: a file whose current version the user has moved out of a
  -- folder, where an older version still is, and deleteFolder of that folder, which has no folder
  -- below it and no current file in it. deleteFolder answers, and leaves all rows of files; a
  -- restore of the older version then makes it current, and no listing of the user's, of the top or
  -- of any folder that the user has, shows it.
  pub restore_into_deleted :
      (v : Services U) (db : Db U H) (user id version_id a : U) (f t : File U) (d : Folder U)
      → Reach v db
      → resolve_owned_file user id db.files ≡ some f
      → resolve_owned_file user version_id db.files ≡ some t
      → lineage_root_id t ≡ lineage_root_id f
      → t.folder_id ≡ some a
      → resolve_owned_folder user a db.folders ≡ some d
      → children_of user a db.folders ≡ []
      → current_in user a db.files ≡ []
      → (delete_folder_files 1 user a db
          ≡ (record db { folders = delete_row user a db.folders }, [], no_content))
        × (resolve_owned_file user version_id (restore_file_version user id version_id db.files).0
            ≡ some (record t { is_current = true }))
        × ((p : Option U)
            → IsPlace user p (delete_row user a db.folders)
            → any
                (λ g. e.beq g.id version_id)
                (list_files user p (restore_file_version user id version_id db.files).0)
              ≡ false)
  restore_into_deleted v db user id version_id a f t d r found target together inside folder leaf
        bare =
      let s = Reach-IsSound v r in
      let (m, i, u) = found-IsRow user version_id db.files t target in
      let h = flagged user (lineage_root_id f) version_id in
      let run = restore_effect v db user id version_id f t r found target together in
      (
        delete_bare user a d db folder leaf bare,
        ap (λ q. resolve_owned_file user version_id q.0) run
            ∙ resolve-map h user version_id db.files t (λ g. (refl, refl)) target
            ∙ ground (
              arith,
              together,
              i,
              u,
              e.beq_iff t.user_id user,
              e.beq_iff (lineage_root_id t) (lineage_root_id f),
              e.beq_iff t.id version_id,
            ),
        λ p place.
            ap (λ q. any (λ g. e.beq g.id version_id) (list_files user p q.0)) run
            ∙ not_listed user (lineage_root_id f) a version_id db.files db.folders t p s m i inside
                place,
      )
