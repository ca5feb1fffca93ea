-- ===== src/Tests/VersionTests.antt =====
-- The handlers of files and versions at concrete tables.
use optiflow.Prelude.{
  ℕ, ◌≤◌, ◌≡◌, refl, ◌⊎◌, true, false, not, ◌&&◌, none, some, [], ◌∷◌, map, filter, any, ◌==◌, All,
  nat_eq,
}
use optiflow.Server.Members.{IsRow}
use optiflow.Server.Counting.{count}
use optiflow.Server.Folders.{resolve_owned_folder, no_content}
use optiflow.Server.Files.{
  Answer, row, resolve_owned_file, restore_file_version, delete_file, in_lineage, lineage_root_id,
  is_id_of, save_file,
}
use optiflow.Server.Files.Uploads.{check_quota, presign_version}
use optiflow.Server.Files.Completion.{complete, completed, task_of}
use optiflow.Server.Files.Tree.{delete_folder_files}
use optiflow.Server.Files.Lineages.{is_of, is_current_of}
use optiflow.Server.Folders.{delete_folder, create_folder}
use optiflow.Server.Folders.Answers
use optiflow.Server.Folders.Handlers
use optiflow.Server.Files.Restoring.{flagged, restore_effect, restore_back}
use optiflow.Server.Files.Deletion.{
  folders_and_answer, delete_folder_refines, delete_file_effect, delete_folder_hands_over,
}
use optiflow.Server.Files.Race.{complete_race}
use optiflow.Server.Files.OneCurrent.{Reach-one_current}
use optiflow.Tests.VersionData.{
  services, first, second, folder, share, tables, reached_1, IsNew-2, versions, reached_3,
}

Reach-one_current_example :
    All
      (λ f.
        (count (λ g. in_lineage f.user_id (lineage_root_id f) g && g.is_current) versions ≡ 1)
        × (count
              (λ g. in_lineage f.user_id (lineage_root_id f) g && g.version == f.version)
              versions
            ≡ 1)
        × (count (λ g. nat_eq.beq g.id f.id) versions ≡ 1))
      versions
Reach-one_current_example = Reach-one_current services (tables versions) reached_3

restore_effect_example :
    restore_file_version 7 2 1 versions
    ≡ (map (flagged 7 1 1) versions, row (record (first false) { is_current = true }))
unfolding resolve_owned_file
restore_effect_example =
    restore_effect services (tables versions) 7 2 1 (second none true) (first false) reached_3 refl
      refl refl

-- the flags are exchanged
restored_tested : (restore_file_version 7 2 1 versions).0 ≡ first true ∷ second none false ∷ []
unfolding restore_file_version
restored_tested = refl

restore_back_example :
    (restore_file_version 7 2 2 (restore_file_version 7 2 1 versions).0).0 ≡ versions
unfolding resolve_owned_file
restore_back_example =
    restore_back services (tables versions) 7 2 1 (second none true) (first false) reached_3 refl
      refl refl refl

delete_file_effect_example : delete_file 7 2 versions (share ∷ []) ≡ (
  filter (λ g. not (is_of 7 1 g)) versions,
  filter
      (λ s.
        not
          (any (λ g. is_of 7 1 g && nat_eq.beq s.file_id g.id) versions && nat_eq.beq s.user_id 7))
      (share ∷ []),
  Answer.no_content,
)
unfolding resolve_owned_file
delete_file_effect_example =
    delete_file_effect services (tables versions) 7 2 (second none true) reached_3 refl

deletion_tested : delete_file 7 2 versions (share ∷ []) ≡ ([], [], Answer.no_content)
unfolding delete_file
deletion_tested = refl

delete_folder_refines_example :
    folders_and_answer (delete_folder_files 1 7 3 (tables versions))
    ≡ delete_folder 1 7 3 (folder ∷ [])
delete_folder_refines_example = delete_folder_refines 1 7 3 (tables versions)

folders_reached : Answers.Reach (folder ∷ [])
unfolding Handlers.handle create_folder
folders_reached = Answers.next Answers.empty 0 (Handlers.creating 7 3 "f" none) tt refl

delete_folder_hands_over_example :
    (n : ℕ) × ((fuel : ℕ)
      → n ≤ fuel
      → ((delete_folder_files fuel 7 3 (tables versions)).2 ≡ no_content)
        × All
            (λ g.
              IsRow g (delete_folder_files fuel 7 3 (tables versions)).0.files
              ⊎ IsRow g (delete_folder_files fuel 7 3 (tables versions)).1)
            versions
        × All
            (λ s.
              IsRow s (share ∷ [])
              × ((is_id_of (delete_folder_files fuel 7 3 (tables versions)).1 s.file_id
                    && nat_eq.beq s.user_id 7)
                  ≡ false))
            (delete_folder_files fuel 7 3 (tables versions)).0.shares)
unfolding resolve_owned_folder
delete_folder_hands_over_example =
    delete_folder_hands_over services (tables versions) 7 3 folder reached_3 folders_reached refl

complete_race_example :
    (complete services.stat 7 1 (first true ∷ []) ≡ (
      save_file (completed (first true) 5) (first true ∷ []),
      row (completed (first true) 5),
      task_of 1 "users/u/u/a" "text/plain",
    ))
    × (count (is_current_of 7 1) (
          save_file
            (completed (first true) 5)
            (presign_version services.quota_of services.text services.sign 7 1 2
              (some 30)
              "text/plain"
              (first true ∷ [])).0)
        ≡ 2)
unfolding resolve_owned_file check_quota
complete_race_example =
    complete_race services (tables (first true ∷ [])) 7 1 2 30 5 "text/plain" (first true) reached_1
      refl refl refl refl refl refl IsNew-2
