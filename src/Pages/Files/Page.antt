-- ===== src/Pages/Files/Page.antt =====
-- app/dashboard/files/page.tsx: the lists after the search, and what FileManager renders.
--
-- `lower` stands for toLowerCase and `distance` for formatDistanceToNow. The dialogs of other
-- files are shown by the properties they are given; the avatar of the top bar is left out.
use optiflow.Prelude.{
  ◌+◌, Bool, true, false, not, ◌&&◌, ◌||◌, Option, none, some, List, [], ◌∷◌, String, length,
  filter, is_blank, is_some, is_truthy, truthy, includes, or_else, str_eq, if◌then◌else◌, ◌==◌,
}
use optiflow.Requests.Files.{FileRecord}
use optiflow.Requests.Folders.{Folder}
use optiflow.View.{View, nothing, spinner, text, element, clickable, field, ◌⊕◌, when}
use optiflow.Pages.Files.{
  Queries, State, Named, grid, list, Action, go_back, push, set_view_mode, set_search_query,
  set_new_folder_name, retype_folder, retype_file, set_move_target, set_folder_dialog,
  set_upload_dialog, set_rename_folder, set_rename_file, set_share_file, set_play_file,
  set_versions_file, end_move, set_delete_folder, set_delete_file, create, rename_the_folder,
  move_the_folder, delete_the_folder, rename_the_file, delete_the_file,
}
use optiflow.Pages.Files.Cards.{folder_card, file_card, decimal}

-- a view for each item of a list
unfoldable pub each : {A : Type 0} → (A → View Action) → List A → View Action
each card [] = nothing
each card (x ∷ xs) = card x ⊕ each card xs

-- A dialog with its `onOpenChange`, which closes it, and its content.
abbrev pub dialog : Bool → Action → View Action → View Action
dialog shown close content = when shown (element "dialog" (clickable false close nothing ⊕ content))

-- `name` of an object that may be null, or ""
abbrev pub name_of : Option Named → String
name_of none = ""
name_of (some n) = n.name

-- A dialog of another file that is given an object's id and name.
abbrev pub named_dialog : String → Option Named → (Option Named → Action) → View Action
named_dialog tag none close = nothing
named_dialog tag (some n) close =
    element tag (text n.id ⊕ text n.name ⊕ clickable false (close none) nothing)

unfoldable pub folder_dialog_view : Queries → State → View Action
folder_dialog_view q s = dialog s.is_folder_dialog_open (set_folder_dialog false) (
    text "Create New Folder"
    ⊕ field "text" "Folder name" s.new_folder_name set_new_folder_name
    ⊕ clickable false (set_folder_dialog false) (text "Cancel")
    ⊕ clickable (q.create_folder_pending || is_blank s.new_folder_name) create (text "Create"))

unfoldable pub rename_folder_view : Queries → State → View Action
rename_folder_view q s = dialog (is_some s.rename_folder) (set_rename_folder none) (
    text "Rename Folder"
    ⊕ field "text" "" (name_of s.rename_folder) retype_folder
    ⊕ clickable false (set_rename_folder none) (text "Cancel")
    ⊕ clickable (q.update_folder_pending || is_blank (name_of s.rename_folder)) rename_the_folder
        (text "Save"))

-- the options of the select, without "Root (no folder)"
unfoldable pub move_options : Folder → List Folder → List Folder
move_options moving folders = filter (λ f. not (str_eq f.id moving.id)) folders

-- an option of the select
abbrev pub folder_option : Folder → View Action
folder_option f = clickable false (set_move_target f.id) (text f.name)

unfoldable pub move_folder_view : Queries → State → Option Folder → View Action
unfolding each move_options
move_folder_view q s none = nothing
move_folder_view q s (some moving) = dialog true end_move (
    text "Move"
    ⊕ text moving.name
    ⊕ element "select" (
        clickable false (set_move_target "root") (text "Root (no folder)")
        ⊕ each folder_option (move_options moving (or_else q.root_folders [])))
    ⊕ clickable false end_move (text "Cancel")
    ⊕ clickable q.update_folder_pending move_the_folder (text "Move"))

unfoldable pub delete_folder_view : Queries → State → View Action
delete_folder_view q s = dialog (is_truthy s.delete_folder_id) (set_delete_folder none) (
    text "Delete Folder"
    ⊕ clickable false (set_delete_folder none) (text "Cancel")
    ⊕ clickable q.delete_folder_pending delete_the_folder (text "Delete Permanently"))

unfoldable pub rename_file_view : Queries → State → View Action
rename_file_view q s = dialog (is_some s.rename_file) (set_rename_file none) (
    text "Rename File"
    ⊕ field "text" "" (name_of s.rename_file) retype_file
    ⊕ clickable false (set_rename_file none) (text "Cancel")
    ⊕ clickable (q.update_file_pending || is_blank (name_of s.rename_file)) rename_the_file
        (text "Save"))

unfoldable pub delete_file_view : Queries → State → View Action
delete_file_view q s = dialog (is_truthy s.delete_file_id) (set_delete_file none) (
    text "Confirm Deletion"
    ⊕ clickable false (set_delete_file none) (text "Cancel")
    ⊕ clickable q.delete_file_pending delete_the_file (text "Delete Permanently"))

unfoldable pub dialogs : Queries → State → View Action
unfolding rename_folder_view move_folder_view delete_folder_view rename_file_view delete_file_view
dialogs q s =
    rename_folder_view q s
    ⊕ move_folder_view q s s.move_folder
    ⊕ delete_folder_view q s
    ⊕ rename_file_view q s
    ⊕ delete_file_view q s
    ⊕ named_dialog "ShareDialog" s.share_file set_share_file
    ⊕ named_dialog "VideoPlayerDialog" s.play_file set_play_file
    ⊕ named_dialog "VersionHistoryDialog" s.versions_file set_versions_file

module _ (lower : String → String) where
  unfoldable pub filtered_folders : String → List Folder → List Folder
  filtered_folders search folders =
      if is_blank search
      then folders
      else filter (λ f. includes (lower f.name) (lower search)) folders

  unfoldable pub filtered_files : String → List FileRecord → List FileRecord
  filtered_files search files =
      if is_blank search then files else filter (λ f. includes (lower f.name) (lower search)) files

  abbrev pub shown_folders : Queries → State → List Folder
  shown_folders q s = filtered_folders s.search_query (or_else q.folders [])

  abbrev pub shown_files : Queries → State → List FileRecord
  shown_files q s = filtered_files s.search_query (or_else q.files [])

  -- the top bar
  unfoldable pub header_view : Queries → State → View Action
  unfolding folder_dialog_view
  header_view q s =
      when (is_truthy q.current_folder_id) (clickable false go_back nothing)
      ⊕ element "h1" (text (if truthy s.search_query then "Search Results" else "My Files"))
      ⊕ element "p"
          (text (decimal 16 (length (shown_folders q s) + length (shown_files q s))) ⊕ text "items")
      ⊕ field "text" "Find files or folders..." s.search_query set_search_query
      ⊕ element "NotificationsPopover" nothing
      ⊕ clickable false (set_folder_dialog true) nothing
      ⊕ folder_dialog_view q s
      ⊕ clickable false (set_upload_dialog true) (text "Upload")
      ⊕ when s.is_upload_dialog_open
          (element "UploadDialog" (clickable false (set_upload_dialog false) nothing))
      ⊕ clickable false (push "/dashboard/profile") nothing

  unfoldable pub toggle_view : View Action
  toggle_view =
      clickable false (set_view_mode grid) (text "Grid")
      ⊕ clickable false (set_view_mode list) (text "List")

  module _ (distance : String → String) where
    listing : Queries → List Folder → List FileRecord → View Action
    unfolding each
    listing q folders files =
        if (length folders == 0) && (length files == 0)
        then element "h3" (text "Your storage is peaceful")
          ⊕ clickable false (set_upload_dialog true) (text "Start Uploading")
        else element "div" (each (folder_card distance) folders ⊕ each (file_card distance q) files)

    unfoldable pub listing_view : Queries → State → View Action
    unfolding listing
    listing_view q s =
        if q.folders_loading || q.files_loading
        then spinner
        else listing q (shown_folders q s) (shown_files q s)

    unfoldable pub view : Queries → State → View Action
    unfolding header_view toggle_view listing_view dialogs
    view q s = element "div" (header_view q s ⊕ toggle_view ⊕ listing_view q s ⊕ dialogs q s)
