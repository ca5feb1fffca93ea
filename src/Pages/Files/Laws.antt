-- ===== src/Pages/Files/Laws.antt =====
-- app/dashboard/files/page.tsx: what the page sends, and when.
use optiflow.Prelude.{◌≡◌, ◌≢◌, ◌⊎◌, true, false, none, some, String, is_blank}
use optiflow.Requests.{undefined, null, value}
use optiflow.Requests.Folders.{Folder, FolderUpdate}
use optiflow.Pages.Files.{Queries, State, Named, Effect}

-- What each effect takes for granted of the state and the data that it was made from. A folder is
-- renamed or moved to the place chosen in the dialog, and it is not moved into itself.
abbrev pub IsRename : State → String → FolderUpdate → Type 0
IsRename s id u =
    (n : Named) × (s.rename_folder ≡ some n)
    × (id ≡ n.id)
    × (u.name ≡ some n.name)
    × (is_blank n.name ≡ false)
    × (u.parent_id ≡ undefined)

abbrev pub IsMove : State → String → FolderUpdate → Type 0
IsMove s id u =
    (f : Folder) × (s.move_folder ≡ some f)
    × (id ≡ f.id)
    × (u.name ≡ none)
    × (((s.move_target ≡ "root") × (u.parent_id ≡ null))
        ⊎ ((s.move_target ≢ "root") × (u.parent_id ≡ value s.move_target)))
    × (u.parent_id ≢ undefined)
    × (u.parent_id ≢ value id)

abbrev pub IsSound : Queries → State → Effect → Type 0
IsSound q s (Effect.create_folder name parent) =
    (s.is_folder_dialog_open ≡ true)
    × (q.create_folder_pending ≡ false)
    × (name ≡ s.new_folder_name)
    × (is_blank name ≡ false)
    × (parent ≡ q.current_folder_id)
IsSound q s (Effect.update_folder id u) =
    (q.update_folder_pending ≡ false) × (IsRename s id u ⊎ IsMove s id u)
IsSound q s (Effect.delete_folder id) =
    (q.delete_folder_pending ≡ false) × (s.delete_folder_id ≡ some id)
IsSound q s (Effect.update_file id u) =
    (q.update_file_pending ≡ false)
    × ((n : Named) × (s.rename_file ≡ some n)
        × (id ≡ n.id)
        × (u.name ≡ some n.name)
        × (is_blank n.name ≡ false)
        × (u.folder_id ≡ undefined))
IsSound q s (Effect.delete_file id) = (q.delete_file_pending ≡ false) × (s.delete_file_id ≡ some id)
IsSound q s _ = Unit
