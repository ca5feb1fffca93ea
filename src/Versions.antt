-- ===== src/Versions.antt =====
-- useUploadNewVersion of lib/hooks/use-file-versions.ts with putFileToPresignedUrl of
-- lib/api/uploads.ts (frontend): presign, PUT, complete.
--
-- `Answers` is how the three requests end. A run is the list of what it does, in order: its calls
-- of setState, of the API and of the query client.
pub mod Laws
use optiflow.Prelude.{
  ℕ, ◌+◌, ◌*◌, ◌/◌, Bool, true, false, Option, none, some, List, [], ◌∷◌, ◌++◌, String, truthy,
  is_truthy, if◌then◌else◌, ◌==◌,
}
use optiflow.Failure.{
  Failure, failure_text, Answer, ok, threw, Async, call, pure, act, after, ◌>>=◌, ◌>>◌, then_do,
  recover, try_catch,
}
use optiflow.Upload.{File, round_percent}

pub data VersionUploadState : Type 0 where
  idle completing : VersionUploadState
  uploading : Option ℕ → VersionUploadState
  error : String → VersionUploadState

pub record PresignResponse : Type 0 where
  pub file_id : String
  pub upload_url : String

-- One onUploadProgress event of axios: `loaded` and the optional `total`.
pub record ProgressEvent : Type 0 where
  pub loaded : ℕ
  pub total : Option ℕ

pub data Effect : Type 0 where
  set_state : VersionUploadState → Effect
  presign_new_version : String → (size_bytes : ℕ) → (mime_type : String) → Effect
  put : (url content_type : String) → Effect
  complete_upload : String → Effect
  invalidate_versions : String → Effect
  invalidate_files : Effect

pub record Answers : Type 0 where
  pub presign : Answer PresignResponse
  pub progress : List ProgressEvent
  pub put : Answer (Unit {0})
  pub complete : Answer (Unit {0})

abbrev pub mime_or_default : String → String
mime_or_default type = if truthy type then type else "application/octet-stream"

-- onUploadProgress: events with no total, or a total of 0, are not reported
report : (Option ℕ → Effect) → ℕ → Option ℕ → List Effect
report on_progress loaded none = []
report on_progress loaded (some total) =
    if total == 0 then [] else on_progress (round_percent loaded total) ∷ []

reports : (Option ℕ → Effect) → List ProgressEvent → List Effect
unfolding report
reports on_progress [] = []
reports on_progress (e ∷ es) = report on_progress e.loaded e.total ++ reports on_progress es

unfoldable pub put_file_to_presigned_url :
    String
    → File
    → (Option ℕ → Effect)
    → List ProgressEvent
    → Answer (Unit {0})
    → Async Effect (Unit {0})
unfolding reports
put_file_to_presigned_url url file on_progress events answer = record {
  effects = put url (mime_or_default file.type) ∷ reports on_progress events;
  answer = answer;
}

-- the body of the `try`
attempt : String → File → Answers → Async Effect (Unit {0})
unfolding put_file_to_presigned_url
attempt file_id file a = do
  presigned ← call (presign_new_version file_id file.size (mime_or_default file.type)) a.presign
  put_file_to_presigned_url presigned.upload_url file (λ percent. set_state (uploading percent))
      a.progress a.put
  act (set_state completing)
  call (complete_upload presigned.file_id) a.complete
  act (set_state idle)
  act (invalidate_versions file_id)
  act invalidate_files

upload_to : String → File → Answers → List Effect
unfolding attempt
upload_to file_id file a =
    set_state (uploading (some 0))
    ∷ try_catch (attempt file_id file a)
        (λ err. set_state (error (failure_text "Upload failed" err)) ∷ [])

-- `upload(file)` of a hook for `fileId`
unfoldable pub upload : Option String → File → Answers → List Effect
unfolding upload_to
upload none file a = []
upload (some id) file a = if is_truthy (some id) then upload_to id file a else []
