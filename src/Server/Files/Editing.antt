-- ===== src/Server/Files/Editing.antt =====
-- The requests that change rows of files, and the end of an upload, keep one current version in every
-- lineage.
use optiflow.Prelude.{
  if_lem, ℕ, ◌≡◌, refl, subst, Bool, Option, none, some, List, String, truthy, Eq,
}
use optiflow.Server.Folders.{Folder, ParentField, absent, to_root, into, resolve_owned_folder}
use optiflow.Server.Files.{
  refused, Answer, File, lineage_root_id, resolve_owned_file, supersede, make_current, save_file,
  restore_target, restore_found, restore_file_version, place_in, place_file, rename_file,
  update_file,
}
use optiflow.Server.Files.Completion.{
  Task, Finished, completed, complete_stored, complete_found, complete, finish_tus_upload,
  finish_owned, tus_file, is_pending,
}
use optiflow.Server.Files.Lineages.{IsSound}
use optiflow.Server.Files.Shapes.{IsUpdate, IsNew}
use optiflow.Server.Files.Current.{save_file-IsSound, restore-IsSound}
use optiflow.Server.Files.Superseding.{append-IsSound}
use optiflow.Server.Files.Found.{found-IsRow, if-IsSound}

module _ {U : Type 0} ⦃e : Eq U⦄ where
  module _ (files : List (File U)) (s : IsSound files) where
    module _ (user id : U) (f : File U) (found : resolve_owned_file user id files ≡ some f) where
      saved-IsSound :
          (g : File U) → IsUpdate f g → g.is_current ≡ f.is_current → IsSound (save_file g files)
      saved-IsSound g q c = save_file-IsSound f g files (found-IsRow user id files f found).0 q c s

      complete_stored-IsSound : (m : Option ℕ) → IsSound (complete_stored f m files).0
      unfolding complete_stored
      complete_stored-IsSound none = s
      complete_stored-IsSound (some size) =
          saved-IsSound (completed f size) (refl, refl, refl, refl) refl

      place_in-IsSound :
          (p : U) (g : File U) (m : Option (Folder U))
          → IsUpdate f g
          → g.is_current ≡ f.is_current
          → IsSound (place_in user p g m files).0
      unfolding place_in
      place_in-IsSound p g none q c = s
      place_in-IsSound p g (some _) q c = saved-IsSound (record g { folder_id = some p }) q c

      place_file-IsSound :
          (folders : List (Folder U)) (g : File U) (folder : ParentField U)
          → IsUpdate f g
          → g.is_current ≡ f.is_current
          → IsSound (place_file user folders g folder files).0
      unfolding place_file
      place_file-IsSound folders g absent q c = saved-IsSound g q c
      place_file-IsSound folders g to_root q c = saved-IsSound (record g { folder_id = none }) q c
      place_file-IsSound folders g (into p) q c =
          place_in-IsSound p g (resolve_owned_folder user p folders) q c

    abbrev LeavesSound : List (File U) × Answer U × Option (Task U) → Type 0
    LeavesSound r = IsSound r.0

    complete_found-IsSound :
        (stat : String → Option ℕ) (user id : U) (m : Option (File U))
        → resolve_owned_file user id files ≡ m
        → IsSound (complete_found stat m files).0
    unfolding complete_found
    complete_found-IsSound stat user id none h = s
    complete_found-IsSound stat user id (some f) h =
        if_lem LeavesSound (is_pending f.status) (complete_stored f (stat f.storage_key) files)
          (files, refused 409 "upload already completed", none)
          (λ k. complete_stored-IsSound user id f h (stat f.storage_key)) (λ k. s)

    pub complete-IsSound :
        (stat : String → Option ℕ) (user id : U) → IsSound (complete stat user id files).0
    unfolding complete
    complete-IsSound stat user id =
        complete_found-IsSound stat user id (resolve_owned_file user id files) refl

    rename_file-IsSound :
        (user id : U) (folders : List (Folder U)) (name : Option String) (folder : ParentField U)
        (m : Option (File U))
        → resolve_owned_file user id files ≡ m
        → IsSound (rename_file user folders name folder files m).0
    unfolding rename_file
    rename_file-IsSound user id folders name folder none h = s
    rename_file-IsSound user id folders none folder (some f) h =
        place_file-IsSound user id f h folders f folder (refl, refl, refl, refl) refl
    rename_file-IsSound user id folders (some n) folder (some f) h =
        if-IsSound (truthy n) _ _
          (λ k.
            place_file-IsSound user id f h folders (record f { name = n }) folder
              (refl, refl, refl, refl) refl)
          (λ k. s)

    pub update_file-IsSound :
        (user id : U) (folders : List (Folder U)) (name : Option String) (folder : ParentField U)
        → IsSound (update_file user id folders name folder files).0
    unfolding update_file
    update_file-IsSound user id folders name folder =
        rename_file-IsSound user id folders name folder (resolve_owned_file user id files) refl

    restore_target-IsSound :
        (user root id : U) (m : Option (File U))
        → resolve_owned_file user id files ≡ m
        → IsSound (restore_target user root files m).0
    unfolding restore_target
    restore_target-IsSound user root id none h = s
    restore_target-IsSound user root id (some t) h =
        let (here, i, u) = found-IsRow user id files t h in
        if-IsSound (e.beq (lineage_root_id t) root) _ _
          (λ k.
            subst (λ r. IsSound (make_current t.id (supersede user r files)))
              ((e.beq_iff (lineage_root_id t) root).0 k) (restore-IsSound files user t here u s))
          (λ k. s)

    restore_found-IsSound :
        (user version_id : U) (m : Option (File U))
        → IsSound (restore_found user version_id files m).0
    unfolding restore_found
    restore_found-IsSound user version_id none = s
    restore_found-IsSound user version_id (some f) =
        restore_target-IsSound user (lineage_root_id f) version_id
          (resolve_owned_file user version_id files) refl

    pub restore_file_version-IsSound :
        (user id version_id : U) → IsSound (restore_file_version user id version_id files).0
    unfolding restore_file_version
    restore_file_version-IsSound user id version_id =
        restore_found-IsSound user version_id (resolve_owned_file user id files)

    finish_owned-IsSound :
        (text : U → String) (id : U) (u : Finished U) (is_stored : Bool) (m : Option U)
        → IsNew id files
        → IsSound (finish_owned text id u is_stored files m).0
    unfolding finish_owned
    finish_owned-IsSound text id u is_stored none new = s
    finish_owned-IsSound text id u is_stored (some user) new =
        if-IsSound is_stored _ _
          (λ k. append-IsSound files (tus_file text user id u) new refl refl s) (λ k. s)

    pub finish-IsSound :
        (text : U → String) (id : U) (u : Finished U) (is_stored : Bool)
        → IsNew id files
        → IsSound (finish_tus_upload text id u is_stored files).0
    unfolding finish_tus_upload
    finish-IsSound text id u is_stored new = finish_owned-IsSound text id u is_stored u.owner new
