-- ===== src/Server/Files/Completion.antt =====
-- backend/cmd/upload-svc, handlers.go and tus.go: what happens when the bytes of an upload are
-- there, and the URL of a download. `stat` gives the size of the object of a key.
use optiflow.Prelude.{
  is_some, ℕ, Bool, true, false, ◌||◌, Option, none, some, List, [], ◌∷◌, ◌++◌, String, truthy,
  starts_with, if◌then◌else◌, Eq,
}
use optiflow.Server.Files.{
  File, FileStatus, pending, processing, ready, Answer, refused, row, url, resolve_owned_file,
  save_file,
}
use optiflow.Server.Folders.{Folder, resolve_owned_folder}
use optiflow.Server.Files.Uploads.{Quota, within, unknown, beyond, check_quota, new_file}

-- What is put in the queue of the workers: the id and the storage key.
pub data Task (U : Type 0) : Type 0 where
  image_thumbnail video_transcode : U → String → Task U

-- `strings.HasPrefix(mimeType, "image/")`, then `"video/"`
abbrev pub task_of : {U : Type 0} → U → String → String → Option (Task U)
task_of id key mime =
    if starts_with mime "image/"
    then some (image_thumbnail id key)
    else (if starts_with mime "video/" then some (video_transcode id key) else none)

abbrev pub status_after : String → FileStatus
status_after mime =
    if starts_with mime "image/" || starts_with mime "video/" then processing else ready

abbrev pub is_pending : FileStatus → Bool
is_pending pending = true
is_pending _ = false

-- the row as `complete` saves it
abbrev pub completed : {U : Type 0} → File U → ℕ → File U
completed f size = record f { size_bytes = size; status = status_after f.mime_type }

-- firstNonEmpty
unfoldable pub first_non_empty : List String → String
first_non_empty [] = ""
first_non_empty (v ∷ vs) = if truthy v then v else first_non_empty vs

-- The metadata of a finished tus upload. `owner` and `folder` are as uuid.Parse gives them:
-- an owner that is none cannot be read, and a folder that cannot be is left out.
pub record Finished (U : Type 0) : Type 0 where
  pub owner : Option U
  pub filename : String
  pub name : String
  pub upload_id : String
  pub filetype : String
  pub folder : Option U
  pub size : ℕ

abbrev pub type_or_default : String → String
type_or_default t = if truthy t then t else "application/octet-stream"

-- What tusPreCreate answers: the metadata with the owner stamped on, or an error.
pub data PreCreate (U : Type 0) : Type 0 where
  accepted : Finished U → PreCreate U
  rejected : String → ℕ → String → PreCreate U
  -- "ERR_QUOTA_EXCEEDED" with the bytes used, the quota and the bytes asked for
  quota_exceeded : ℕ → ℕ → ℕ → PreCreate U

unfoldable pub stamped : {U : Type 0} → U → Finished U → Quota → PreCreate U
stamped user u within = accepted (record u { owner = some user })
stamped user u unknown = rejected "ERR_INTERNAL" 500 "could not start upload"
stamped user u (beyond used quota incoming) = quota_exceeded used quota incoming

module _ {U : Type 0} ⦃e : Eq U⦄ where
  unfoldable pub complete_stored :
      File U → Option ℕ → List (File U) → List (File U) × Answer U × Option (Task U)
  unfolding save_file
  complete_stored f none files =
      (files, refused 400 "upload not found in storage — retry the upload", none)
  complete_stored f (some size) files = (
    save_file (completed f size) files,
    row (completed f size),
    task_of f.id f.storage_key f.mime_type,
  )

  unfoldable pub complete_found :
      (String → Option ℕ)
      → Option (File U)
      → List (File U)
      → List (File U) × Answer U × Option (Task U)
  unfolding complete_stored
  complete_found stat none files = (files, refused 404 "file not found", none)
  complete_found stat (some f) files =
      if is_pending f.status
      then complete_stored f (stat f.storage_key) files
      else (files, refused 409 "upload already completed", none)

  unfoldable pub complete :
      (String → Option ℕ) → U → U → List (File U) → List (File U) × Answer U × Option (Task U)
  unfolding complete_found resolve_owned_file
  complete stat user id files = complete_found stat (resolve_owned_file user id files) files

  -- the row of a finished tus upload
  abbrev pub tus_file : (U → String) → U → U → Finished U → File U
  tus_file text user id u =
      new_file text user id (first_non_empty (u.filename ∷ u.name ∷ u.upload_id ∷ [])) u.size
        (type_or_default u.filetype) u.folder (status_after (type_or_default u.filetype))

  abbrev pub is_own_folder : U → Option U → List (Folder U) → Bool
  is_own_folder user none folders = true
  is_own_folder user (some p) folders = is_some (resolve_owned_folder user p folders)

  -- tusPreCreate, for the user of the request's context if there is one; a folder_id that is no uuid
  -- is refused as well
  unfoldable pub tus_pre_create :
      (U → Option ℕ) → Option U → Finished U → List (Folder U) → List (File U) → PreCreate U
  unfolding stamped first_non_empty
  tus_pre_create quota_of none u folders files =
      rejected "ERR_UNAUTHENTICATED" 401 "missing authenticated user"
  tus_pre_create quota_of (some user) u folders files =
      if truthy (first_non_empty (u.filename ∷ u.name ∷ []))
      then (if is_own_folder user u.folder folders
          then stamped user u (check_quota quota_of user u.size files)
          else rejected "ERR_INVALID_METADATA" 400 "folder not found")
      else rejected "ERR_INVALID_METADATA" 400 "filename metadata is required"

  unfoldable pub finish_owned :
      (U → String)
      → U
      → Finished U
      → Bool
      → List (File U)
      → Option U
      → List (File U) × Option (Task U)
  finish_owned text id u is_stored files none = (files, none)
  finish_owned text id u is_stored files (some user) =
      if is_stored
      then (
        files ++ tus_file text user id u ∷ [],
        task_of id (tus_file text user id u).storage_key (type_or_default u.filetype),
      )
      else (files, none)

  -- finishTusUpload: `is_stored` says that the file was read and PutObject took it
  unfoldable pub finish_tus_upload :
      (U → String) → U → Finished U → Bool → List (File U) → List (File U) × Option (Task U)
  unfolding finish_owned
  finish_tus_upload text id u is_stored files = finish_owned text id u is_stored files u.owner

  sign_download : (String → Option String) → String → Answer U
  sign_download sign key = elim (sign key) [
    | none ↦ refused 500 "could not build download url"
    | some u ↦ url u
  ]

  download_found : (String → Option String) → Bool → Option (File U) → Answer U
  unfolding sign_download
  download_found sign thumbnail none = refused 404 "file not found"
  download_found sign true (some f) = elim f.thumbnail_key [
    | none ↦ refused 404 "no thumbnail available for this file"
    | some key ↦ sign_download sign key
  ]
  download_found sign false (some f) =
      if is_pending f.status
      then refused 409 "file has not finished uploading yet"
      else sign_download sign f.storage_key

  -- `thumbnail` says that the query's variant is "thumbnail"
  unfoldable pub download_url : (String → Option String) → U → U → Bool → List (File U) → Answer U
  unfolding download_found resolve_owned_file
  download_url sign user id thumbnail files =
      download_found sign thumbnail (resolve_owned_file user id files)
