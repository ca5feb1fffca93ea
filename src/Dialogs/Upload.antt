-- ===== src/Dialogs/Upload.antt =====
-- components/files/upload-dialog.tsx (frontend), over the hook useFileUpload. The click that opens
-- the browser's file chooser and the files chosen in it are two actions. The texts of sizes are
-- those of the files page, whose formatBytes is the same text.
pub mod Laws
use optiflow.Prelude.{
  ℕ, Bool, true, false, not, Option, none, some, List, [], ◌∷◌, ◌++◌, String, or_else, starts_with,
  if◌then◌else◌,
}
use optiflow.Upload.{
  File, UploadStatus, uploading, done, error, UploadItem, Hook, start_upload, dismiss_upload,
}
use optiflow.Upload as Hooks
use optiflow.View.{View, nothing, text, element, clickable, ◌⊕◌, when}
use optiflow.Pages.Files.Cards.{format_bytes}

pub data Icon : Type 0 where
  image_icon video_icon music_icon file_icon : Icon

unfoldable pub get_file_icon : String → Icon
get_file_icon mime =
    if starts_with mime "image/"
    then image_icon
    else (if starts_with mime "video/"
        then video_icon
        else (if starts_with mime "audio/" then music_icon else file_icon))

pub record State : Type 0 where
  pub is_dragging : Bool
  pub hook : Hook

pub data Action : Type 0 where
  drag_over drag_leave click_zone close : Action
  -- `dataTransfer.files`, and the files chosen, if the browser gives any
  drop select : Option (List File) → Action
  dismiss : ℕ → Action

pub data Effect : Type 0 where
  choose_files : Effect
  on_open_change : Bool → Effect
  of_hook : Hooks.Effect → Effect

unfoldable pub handle_files : List File → Hook → Hook × List Hooks.Effect
unfolding start_upload
handle_files [] h = (h, [])
handle_files (file ∷ files) h =
    let (h', es) = start_upload file h in let (h'', es') = handle_files files h' in (h'', es ++ es')

lifted : List Hooks.Effect → List Effect
lifted [] = []
lifted (e ∷ es) = of_hook e ∷ lifted es

handle_given : Option (List File) → State → State × List Effect
unfolding handle_files lifted
handle_given none s = (s, [])
handle_given (some files) s =
    let (h, es) = handle_files files s.hook in (record s { hook = h }, lifted es)

-- What an action does.
unfoldable pub perform : Action → State → State × List Effect
unfolding handle_given dismiss_upload
perform drag_over s = (record s { is_dragging = true }, [])
perform drag_leave s = (record s { is_dragging = false }, [])
perform (drop files) s = handle_given files (record s { is_dragging = false })
perform click_zone s = (s, choose_files ∷ [])
perform (select files) s = handle_given files s
perform (dismiss id) s = (record s { hook = dismiss_upload id s.hook }, [])
perform close s = (s, on_open_change false ∷ [])

icon_view : Icon → View Action
icon_view image_icon = element "ImageIcon" nothing
icon_view video_icon = element "Video" nothing
icon_view music_icon = element "Music" nothing
icon_view file_icon = element "FileIcon" nothing

status_view : UploadItem → UploadStatus → View Action
status_view u uploading = element "Progress" nothing
status_view u done = element "div" (text "Uploaded")
status_view u error = element "div" (text (or_else u.error_text "Upload failed"))

unfoldable pub upload_view : UploadItem → View Action
unfolding icon_view get_file_icon status_view format_bytes
upload_view u = element "div" (
    icon_view (get_file_icon u.file.type)
    ⊕ element "p" (text u.file.name)
    ⊕ element "span" (text (format_bytes u.file.size))
    ⊕ status_view u u.status
    ⊕ clickable false (dismiss u.id) nothing)

unfoldable pub upload_list : List UploadItem → View Action
unfolding upload_view
upload_list [] = nothing
upload_list (u ∷ us) = upload_view u ⊕ upload_list us

unfoldable pub view : (shown : Bool) → State → View Action
unfolding upload_list
view shown s = when shown (
    text "Upload files"
    ⊕ text
        "Uploads are resumable — a dropped connection picks up where it left off instead of restarting."
    ⊕ clickable false click_zone (
        text (if s.is_dragging then "Drop your files here" else "Drag & drop files to upload")
        ⊕ text "or click to browse")
    ⊕ upload_list s.hook.uploads
    ⊕ clickable false close (text "Done"))
