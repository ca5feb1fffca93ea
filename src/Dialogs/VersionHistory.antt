-- ===== src/Dialogs/VersionHistory.antt =====
-- components/files/version-history-dialog.tsx (frontend). The state of the upload is that of
-- useUploadNewVersion; what the hooks return at a render is `Queries`. The click that opens the
-- browser's file chooser and the file chosen in it are two actions; `distance` stands for
-- formatDistanceToNow.
pub mod Laws
use optiflow.Prelude.{
  Bool, true, false, not, ◌||◌, Option, none, some, List, [], ◌∷◌, String, concat, or_else,
  if◌then◌else◌,
}
use optiflow.Failure.{failure_text, Answer, ok, threw}
use optiflow.Requests.Files.{FileRecord}
use optiflow.Upload.{File}
use optiflow.Versions.{VersionUploadState, idle, uploading, completing, error}
use optiflow.View.{View, nothing, spinner, text, element, clickable, ◌⊕◌, when}
use optiflow.Pages.Files.Cards.{format_bytes, decimal}

pub record Queries : Type 0 where
  pub shown : Bool
  pub file_name : String
  pub versions : Option (List FileRecord)
  pub is_loading : Bool
  pub restore_pending : Bool
  pub upload_state : VersionUploadState

pub data Effect : Type 0 where
  restore : (version_id : String) → Effect
  choose_file : Effect
  upload : File → Effect
  success_toast error_toast : String → Effect
  on_open_change : Bool → Effect

pub data Action : Type 0 where
  click_upload close : Action
  select_restore : (version_id : String) → Action

unfoldable pub handle_restore : String → List Effect
handle_restore id = restore id ∷ []

unfoldable pub after_restore : Answer (Unit {0}) → List Effect
after_restore (ok u) = success_toast "Version restored" ∷ []
after_restore (threw err) = error_toast (failure_text "Failed to restore version" err) ∷ []

-- the first of the files that were selected, if any
unfoldable pub handle_file_selected : List File → List Effect
handle_file_selected [] = []
handle_file_selected (file ∷ rest) = upload file ∷ []

unfoldable pub is_uploading : VersionUploadState → Bool
is_uploading (uploading progress) = true
is_uploading completing = true
is_uploading _ = false

-- What a click does.
unfoldable pub on_click : Action → List Effect
unfolding handle_restore
on_click click_upload = choose_file ∷ []
on_click close = on_open_change false ∷ []
on_click (select_restore id) = handle_restore id

upload_text : VersionUploadState → String
upload_text completing = "Finishing up…"
upload_text _ = "Upload new version"

progress_view : VersionUploadState → View Action
progress_view (uploading progress) = element "Progress" nothing
progress_view (error message) = element "p" (text message)
progress_view _ = nothing

module _ (distance : String → String) where
  unfoldable pub version_view : Bool → FileRecord → View Action
  version_view restore_pending v =
      element "span" (text (concat "v" (decimal 16 v.version)))
      ⊕ when v.is_current (element "span" (text "Current"))
      ⊕ element "p" (text (format_bytes v.size_bytes) ⊕ text (distance v.created_at))
      ⊕ when (not v.is_current) (clickable restore_pending (select_restore v.id) (text "Restore"))

  unfoldable pub version_list : Bool → List FileRecord → View Action
  version_list restore_pending [] = nothing
  version_list restore_pending (v ∷ vs) =
      version_view restore_pending v ⊕ version_list restore_pending vs

  unfoldable pub view : Queries → View Action
  unfolding is_uploading upload_text progress_view
  view q = when q.shown (
      text "Version history"
      ⊕ text q.file_name
      ⊕ clickable (is_uploading q.upload_state) click_upload (
          (if is_uploading q.upload_state then spinner else nothing)
          ⊕ text (upload_text q.upload_state))
      ⊕ progress_view q.upload_state
      ⊕ (if q.is_loading then spinner else version_list q.restore_pending (or_else q.versions []))
      ⊕ clickable false close (text "Done"))
