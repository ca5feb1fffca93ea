-- ===== src/Upload.antt =====
-- lib/hooks/use-upload.ts (frontend): the list of running uploads of one useFileUpload hook.
--
-- The text `upload-${n}` is the number n. `uploadCounter` belongs to the module, so other hooks
-- may raise it between two steps. tus is not modelled: its callbacks are events, each for the
-- upload that it was given with, in any order and also after that upload was dismissed. A progress
-- of `none` is NaN or infinite, which a division by 0 gives; the division is taken to be exact.
pub mod Identity
pub mod Patching
use optiflow.Prelude.{
  ℕ, suc, ◌+◌, ◌*◌, ◌/◌, Bool, true, false, not, Option, none, some, List, [], ◌∷◌, ◌++◌, String,
  truthy, if◌then◌else◌, ◌==◌, filter, or_else,
}

pub data UploadStatus : Type 0 where
  uploading done error : UploadStatus

-- The parts of a browser `File` that are read.
pub record File : Type 0 where
  pub name : String
  pub type : String
  pub size : ℕ

pub record UploadItem : Type 0 where
  pub id : ℕ
  pub file : File
  pub progress : Option ℕ
  pub status : UploadStatus
  pub error_text : Option String

-- `Partial<UploadItem>`, of the fields that the callbacks set
pub record Patch : Type 0 where
  pub progress : Option (Option ℕ)
  pub status : Option UploadStatus
  pub error_text : Option String

-- What startUpload hands to tus, and what the callbacks ask of the query client.
pub record TusMetadata : Type 0 where
  pub filename : String
  pub filetype : String
  pub folder_id : String

pub data Effect : Type 0 where
  start : ℕ → TusMetadata → Effect
  invalidate_files : String → Effect
  set_timeout : ℕ → Effect

pub record Hook : Type 0 where
  pub folder_id : Option String
  pub upload_counter : ℕ
  pub uploads : List UploadItem

-- `{ ...u, ...patch }`
unfoldable pub apply : Patch → UploadItem → UploadItem
apply p u = record u {
  progress = or_else p.progress u.progress;
  status = or_else p.status u.status;
  error_text = (elim p.error_text [ none ↦ u.error_text | some e ↦ some e ]);
}

unfoldable pub patch_upload : ℕ → Patch → List UploadItem → List UploadItem
unfolding apply
patch_upload id p [] = []
patch_upload id p (u ∷ us) = (if u.id == id then apply p u else u) ∷ patch_upload id p us

-- Math.round(sent / total * 100)
unfoldable pub round_percent : ℕ → ℕ → Option ℕ
round_percent sent total = if total == 0 then none else some ((200 * sent + total) / (2 * total))

unfoldable pub metadata : Option String → File → TusMetadata
metadata folder_id file = record {
  filename = file.name;
  filetype = if truthy file.type then file.type else "application/octet-stream";
  folder_id = or_else folder_id "";
}

unfoldable pub start_upload : File → Hook → Hook × List Effect
unfolding metadata
start_upload file h =
    let id = suc h.upload_counter in
    (
      record h {
        upload_counter = id;
        uploads =
            h.uploads
            ++ record {
              id = id;
              file = file;
              progress = some 0;
              status = uploading;
              error_text = none;
            }
              ∷ [];
      },
      start id (metadata h.folder_id file) ∷ [],
    )

unfoldable pub dismiss_upload : ℕ → Hook → Hook
dismiss_upload id h = record h { uploads = filter (λ u. not (u.id == id)) h.uploads }

-- the patches of onProgress, onSuccess and onError
abbrev pub progress_patch : ℕ → ℕ → Patch
progress_patch sent total = record {
  progress = some (round_percent sent total);
  status = none;
  error_text = none;
}

abbrev pub success_patch : Patch
success_patch = record { progress = some (some 100); status = some done; error_text = none }

abbrev pub error_patch : String → Patch
error_patch message = record {
  progress = none;
  status = some error;
  error_text = some (if truthy message then message else "Upload failed");
}

patch_hook : ℕ → Patch → Hook → Hook
unfolding patch_upload
patch_hook id p h = record h { uploads = patch_upload id p h.uploads }

unfoldable pub on_progress : ℕ → ℕ → ℕ → Hook → Hook
unfolding patch_hook round_percent
on_progress id sent total h = patch_hook id (progress_patch sent total) h

-- `["files", folderId ?? "root"]` is invalidated now and by two timers.
unfoldable pub on_success : ℕ → Hook → Hook × List Effect
unfolding patch_hook
on_success id h = (
  patch_hook id success_patch h,
  invalidate_files (or_else h.folder_id "root") ∷ set_timeout 1500 ∷ set_timeout 4000 ∷ [],
)

unfoldable pub on_error : ℕ → String → Hook → Hook
unfolding patch_hook
on_error id message h = patch_hook id (error_patch message) h

pub data Event : Type 0 where
  starting : File → Event
  dismissing : ℕ → Event
  progressing : ℕ → ℕ → ℕ → Event
  succeeding : ℕ → Event
  failing : ℕ → String → Event
  elsewhere : Event

-- `elsewhere` is startUpload of another hook, which raises the shared counter.
unfoldable pub step : Hook → Event → Hook
unfolding start_upload dismiss_upload on_progress on_success on_error
step h (starting file) = (start_upload file h).0
step h (dismissing id) = dismiss_upload id h
step h (progressing id sent total) = on_progress id sent total h
step h (succeeding id) = (on_success id h).0
step h (failing id message) = on_error id message h
step h elsewhere = record h { upload_counter = suc h.upload_counter }

unfoldable pub run : Hook → List Event → Hook
run h [] = h
run h (e ∷ es) = run (step h e) es
