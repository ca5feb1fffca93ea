-- ===== src/Pages/Files/Cards.antt =====
-- app/dashboard/files/page.tsx: the icons, sizes and cards of the list of files.
--
-- `distance` stands for date-fns' formatDistanceToNow of a date. The quotient of Math.log in
-- formatBytes is taken as exact, which it is at the sizes a double holds.
use Prim.Native.String.{slice}
use optiflow.Prelude.{
  ℕ, zero, suc, ◌+◌, ◌*◌, ◌/◌, ◌%◌, ◌^◌, Bool, true, false, not, ◌&&◌, ◌||◌, Option, none, some,
  String, concat, starts_with, includes, is_truthy, ltb, ◌==◌, if◌then◌else◌,
}
use optiflow.Requests.Files.{FileStatus, pending, processing, ready, failed, FileRecord}
use optiflow.Requests.Folders.{Folder}
use optiflow.View.{View, text, element, clickable, ◌⊕◌, when}
use optiflow.Pages.Files.{
  Queries, Named, Action, push, set_rename_folder, start_move, set_delete_folder, set_play_file,
  download, set_rename_file, set_share_file, set_versions_file, set_delete_file,
}

pub data Icon : Type 0 where
  image_icon video_icon music_icon file_text_icon file_icon : Icon

unfoldable pub get_file_icon : String → Icon
get_file_icon mime =
    if starts_with mime "image/"
    then image_icon
    else if starts_with mime "video/"
    then video_icon
    else if starts_with mime "audio/"
    then music_icon
    else if includes mime "pdf" || includes mime "word"
    then file_text_icon
    else file_icon

-- The rounded-down logarithm to the base 1024, where the fuel is not less.
unfoldable pub magnitude : ℕ → ℕ → ℕ
magnitude zero n = 0
magnitude (suc fuel) n = let rest = magnitude fuel (n / 1024) in if ltb n 1024 then 0 else suc rest

-- `sizes[i]`, which is undefined past the end, as text
abbrev pub unit_text : ℕ → String
unit_text zero = "B"
unit_text (suc zero) = "KB"
unit_text (suc (suc zero)) = "MB"
unit_text (suc (suc (suc zero))) = "GB"
unit_text _ = "undefined"

-- decimal digits of a number of at most `fuel` of them
unfoldable pub decimal : ℕ → ℕ → String
decimal zero n = ""
decimal (suc fuel) n =
    let rest = decimal fuel (n / 10) in
    if ltb n 10
    then slice "0123456789" n (n + 1)
    else concat rest (slice "0123456789" (n % 10) (n % 10 + 1))

-- `parseFloat(x.toFixed(1))` as text, for x in tenths
unfoldable pub tenths_text : ℕ → String
unfolding decimal
tenths_text t =
    if t % 10 == 0
    then decimal 4 (t / 10)
    else concat (decimal 4 (t / 10)) (concat "." (decimal 1 (t % 10)))

-- bytes / 1024^i in tenths, rounded to the nearest
unfoldable pub tenths : ℕ → ℕ → ℕ
tenths bytes i = (20 * bytes + 1024 ^ i) / (2 * 1024 ^ i)

-- formatBytes, for numbers of bytes that are less than 2^53
unfoldable pub format_bytes : ℕ → String
unfolding magnitude tenths_text tenths
format_bytes bytes =
    if bytes == 0
    then "0 B"
    else (let i = magnitude 5 bytes in
        concat (tenths_text (tenths bytes i)) (concat " " (unit_text i)))

abbrev pub status_text : FileStatus → String
status_text pending = "pending"
status_text processing = "processing"
status_text ready = "ready"
status_text failed = "failed"

abbrev pub is_ready : FileStatus → Bool
is_ready ready = true
is_ready _ = false

abbrev pub is_pending : FileStatus → Bool
is_pending pending = true
is_pending _ = false

icon_view : Icon → View Action
icon_view image_icon = element "ImageIcon" View.nothing
icon_view video_icon = element "Video" View.nothing
icon_view music_icon = element "Music" View.nothing
icon_view file_text_icon = element "FileText" View.nothing
icon_view file_icon = element "FileIcon" View.nothing

thumbnail_of : String → String → Option String → View Action
unfolding icon_view get_file_icon
thumbnail_of mime name none = element "div" (icon_view (get_file_icon mime))
thumbnail_of mime name (some url) = element "img" (text url ⊕ text name)

-- FileThumbnail
unfoldable pub file_thumbnail : Queries → FileRecord → View Action
unfolding thumbnail_of
file_thumbnail q file = thumbnail_of file.mime_type file.name (
    if not (is_pending file.status) && is_truthy file.thumbnail_key
    then q.thumbnail_url file.id
    else none)

-- the menu of a file
unfoldable pub file_menu : FileRecord → View Action
file_menu file =
    let named : Named = record { id = file.id; name = file.name } in
    text "File Options"
    ⊕ when (starts_with file.mime_type "video/" && is_truthy file.playlist_key)
        (clickable false (set_play_file (some named)) (text "Play"))
    ⊕ clickable (not (is_ready file.status)) (download file.id) (text "Download")
    ⊕ clickable false (set_rename_file (some named)) (text "Rename")
    ⊕ clickable (not (is_ready file.status)) (set_share_file (some named))
        (text "Create Share Link")
    ⊕ clickable false (set_versions_file (some named)) (text "Version History")
    ⊕ clickable false (set_delete_file (some file.id)) (text "Delete")

module _ (distance : String → String) where
  unfoldable pub folder_card : Folder → View Action
  folder_card folder = clickable false (push (concat "/dashboard/files?folderId=" folder.id)) (
      element "menu" (
        clickable false (set_rename_folder (some (record { id = folder.id; name = folder.name })))
          (text "Rename")
        ⊕ clickable false (start_move folder) (text "Move")
        ⊕ clickable false (set_delete_folder (some folder.id)) (text "Delete"))
      ⊕ element "h4" (text folder.name)
      ⊕ element "p" (text (distance folder.created_at)))

  unfoldable pub file_card : Queries → FileRecord → View Action
  unfolding icon_view get_file_icon file_menu file_thumbnail format_bytes
  file_card q file = element "div" (
      icon_view (get_file_icon file.mime_type)
      ⊕ element "menu" (file_menu file)
      ⊕ when (starts_with file.mime_type "image/") (file_thumbnail q file)
      ⊕ element "h4" (text file.name)
      ⊕ element "span" (text (status_text file.status))
      ⊕ element "span" (text (concat "v" (decimal 16 file.version)))
      ⊕ element "span" (text (format_bytes file.size_bytes))
      ⊕ element "span" (text (distance file.created_at)))
