-- ===== src/Pages/Files.antt =====
-- app/dashboard/files/page.tsx (frontend), the component FileManager: its state, its handlers and
-- what the answers of its mutations do.
--
-- `Queries` is what the hooks of the data return at a render: an environment that may change
-- between any two actions. Toasts, navigation and calls of the API are effects.
pub mod Cards
pub mod Page
pub mod Run
pub mod Offers
pub mod Moving
pub mod Sending
pub mod Laws
use optiflow.Prelude.{
  ℕ, Bool, true, false, Option, none, some, List, [], ◌∷◌, String, is_truthy, str_eq, is_blank,
  if◌then◌else◌, ◌==◌, ◌&&◌,
}
use optiflow.Failure.{failure_text, Answer, ok, threw}
use optiflow.Requests.{Nullable, undefined, null, value}
use optiflow.Requests.Files.{FileRecord, FileUpdate}
use optiflow.Requests.Folders.{Folder, FolderUpdate}

pub data ViewMode : Type 0 where
  grid list : ViewMode

-- `{ id, name }`
pub record Named : Type 0 where
  pub id : String
  pub name : String

pub record Queries : Type 0 where
  pub current_folder_id : Option String
  pub folders : Option (List Folder)
  pub files : Option (List FileRecord)
  pub root_folders : Option (List Folder)
  pub folders_loading : Bool
  pub files_loading : Bool
  pub create_folder_pending : Bool
  pub update_folder_pending : Bool
  pub delete_folder_pending : Bool
  pub update_file_pending : Bool
  pub delete_file_pending : Bool
  -- the data of useFileDownloadUrl(id, "thumbnail"): its url
  pub thumbnail_url : String → Option String

pub record State : Type 0 where
  pub view_mode : ViewMode
  pub search_query : String
  pub is_folder_dialog_open : Bool
  pub new_folder_name : String
  pub is_upload_dialog_open : Bool
  pub rename_folder : Option Named
  pub move_folder : Option Folder
  pub move_target : String
  pub delete_folder_id : Option String
  pub rename_file : Option Named
  pub delete_file_id : Option String
  pub share_file : Option Named
  pub play_file : Option Named
  pub versions_file : Option Named

abbrev pub initial : State
initial = record {
  view_mode = grid;
  search_query = "";
  is_folder_dialog_open = false;
  new_folder_name = "";
  is_upload_dialog_open = false;
  rename_folder = none;
  move_folder = none;
  move_target = "";
  delete_folder_id = none;
  rename_file = none;
  delete_file_id = none;
  share_file = none;
  play_file = none;
  versions_file = none;
}

pub data Effect : Type 0 where
  create_folder : (name : String) (parent_id : Option String) → Effect
  update_folder : (id : String) → FolderUpdate → Effect
  delete_folder : (id : String) → Effect
  update_file : (id : String) → FileUpdate → Effect
  delete_file : (id : String) → Effect
  get_download_url : (id : String) → Effect
  success_toast error_toast : String → Effect
  open_window : (url target : String) → Effect
  router_push : String → Effect
  router_back : Effect

pub data Action : Type 0 where
  go_back : Action
  push : String → Action
  set_view_mode : ViewMode → Action
  set_search_query set_new_folder_name retype_folder retype_file set_move_target : String → Action
  set_folder_dialog set_upload_dialog : Bool → Action
  set_rename_folder set_rename_file set_share_file set_play_file set_versions_file :
      Option Named → Action
  start_move : Folder → Action
  end_move : Action
  set_delete_folder set_delete_file : Option String → Action
  create rename_the_folder move_the_folder delete_the_folder rename_the_file delete_the_file :
      Action
  download : String → Action

-- An answer of a mutation or a download.
pub data Answered : Type 0 where
  folder_created folder_renamed folder_moved folder_deleted file_renamed file_deleted :
      Answer (Unit {0}) → Answered
  download_answered : Answer String → Answered

unfoldable pub handle_create_folder : Queries → State → List Effect
handle_create_folder q s =
    if is_blank s.new_folder_name
    then []
    else create_folder s.new_folder_name q.current_folder_id ∷ []

unfoldable pub handle_rename_folder : Option Named → List Effect
handle_rename_folder none = []
handle_rename_folder (some n) =
    if is_blank n.name
    then []
    else update_folder n.id (record { name = some n.name; parent_id = undefined }) ∷ []

unfoldable pub handle_move_folder : String → Option Folder → List Effect
handle_move_folder target none = []
handle_move_folder target (some f) =
    update_folder f.id
      (record { name = none; parent_id = if str_eq target "root" then null else value target })
    ∷ []

unfoldable pub handle_delete_folder : Option String → List Effect
handle_delete_folder none = []
handle_delete_folder (some id) = if is_truthy (some id) then delete_folder id ∷ [] else []

unfoldable pub handle_rename_file : Option Named → List Effect
handle_rename_file none = []
handle_rename_file (some n) =
    if is_blank n.name
    then []
    else update_file n.id (record { name = some n.name; folder_id = undefined }) ∷ []

unfoldable pub handle_delete_file : Option String → List Effect
handle_delete_file none = []
handle_delete_file (some id) = if is_truthy (some id) then delete_file id ∷ [] else []

-- `setX((prev) => (prev ? { ...prev, name } : null))`
abbrev pub retype : String → Option Named → Option Named
retype name none = none
retype name (some n) = some (record n { name = name })

-- What an action does, when the page offers it.
unfoldable pub perform : Queries → State → Action → State × List Effect
unfolding handle_create_folder handle_rename_folder handle_move_folder handle_delete_folder
    handle_rename_file handle_delete_file
perform q s go_back = (s, router_back ∷ [])
perform q s (push path) = (s, router_push path ∷ [])
perform q s (set_view_mode m) = (record s { view_mode = m }, [])
perform q s (set_search_query t) = (record s { search_query = t }, [])
perform q s (set_new_folder_name t) = (record s { new_folder_name = t }, [])
perform q s (retype_folder t) = (record s { rename_folder = retype t s.rename_folder }, [])
perform q s (retype_file t) = (record s { rename_file = retype t s.rename_file }, [])
perform q s (set_move_target t) = (record s { move_target = t }, [])
perform q s (set_folder_dialog b) = (record s { is_folder_dialog_open = b }, [])
perform q s (set_upload_dialog b) = (record s { is_upload_dialog_open = b }, [])
perform q s (set_rename_folder n) = (record s { rename_folder = n }, [])
perform q s (set_rename_file n) = (record s { rename_file = n }, [])
perform q s (set_share_file n) = (record s { share_file = n }, [])
perform q s (set_play_file n) = (record s { play_file = n }, [])
perform q s (set_versions_file n) = (record s { versions_file = n }, [])
perform q s (start_move f) = (record s { move_folder = some f; move_target = "root" }, [])
perform q s end_move = (record s { move_folder = none }, [])
perform q s (set_delete_folder id) = (record s { delete_folder_id = id }, [])
perform q s (set_delete_file id) = (record s { delete_file_id = id }, [])
perform q s create = (s, handle_create_folder q s)
perform q s rename_the_folder = (s, handle_rename_folder s.rename_folder)
perform q s move_the_folder = (s, handle_move_folder s.move_target s.move_folder)
perform q s delete_the_folder = (s, handle_delete_folder s.delete_folder_id)
perform q s rename_the_file = (s, handle_rename_file s.rename_file)
perform q s delete_the_file = (s, handle_delete_file s.delete_file_id)
perform q s (download id) = (s, get_download_url id ∷ [])

-- onSuccess and onError of the mutations, and handleDownload after its `await`
unfoldable pub on_answer : State → Answered → State × List Effect
on_answer s (folder_created (ok u)) = (
  record s { new_folder_name = ""; is_folder_dialog_open = false },
  success_toast "Folder created" ∷ [],
)
on_answer s (folder_created (threw err)) =
    (s, error_toast (failure_text "Failed to create folder" err) ∷ [])
on_answer s (folder_renamed (ok u)) =
    (record s { rename_folder = none }, success_toast "Folder renamed" ∷ [])
on_answer s (folder_renamed (threw err)) =
    (s, error_toast (failure_text "Failed to rename folder" err) ∷ [])
on_answer s (folder_moved (ok u)) =
    (record s { move_folder = none }, success_toast "Folder moved" ∷ [])
on_answer s (folder_moved (threw err)) =
    (s, error_toast (failure_text "Failed to move folder" err) ∷ [])
on_answer s (folder_deleted (ok u)) =
    (record s { delete_folder_id = none }, success_toast "Folder deleted" ∷ [])
on_answer s (folder_deleted (threw err)) =
    (s, error_toast (failure_text "Failed to delete folder" err) ∷ [])
on_answer s (file_renamed (ok u)) =
    (record s { rename_file = none }, success_toast "File renamed" ∷ [])
on_answer s (file_renamed (threw err)) =
    (s, error_toast (failure_text "Failed to rename file" err) ∷ [])
on_answer s (file_deleted (ok u)) =
    (record s { delete_file_id = none }, success_toast "File deleted" ∷ [])
on_answer s (file_deleted (threw err)) =
    (s, error_toast (failure_text "Failed to delete file" err) ∷ [])
on_answer s (download_answered (ok url)) = (s, open_window url "_blank" ∷ [])
on_answer s (download_answered (threw err)) =
    (s, error_toast (failure_text "Failed to build download link" err) ∷ [])
