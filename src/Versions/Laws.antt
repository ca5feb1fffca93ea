-- ===== src/Versions/Laws.antt =====
-- lib/hooks/use-file-versions.ts: how an upload of a new version ends.
use optiflow.Prelude.{
  ℕ, ◌≡◌, refl, Bool, true, false, Option, none, some, List, [], ◌∷◌, ◌++◌, String, truthy, arith,
  filter, filter-append,
}
use optiflow.Failure.{failure_text, Answer, ok, threw}
use optiflow.Upload.{File, round_percent}
use optiflow.Versions.{
  VersionUploadState, idle, uploading, error, PresignResponse, ProgressEvent, Effect, set_state,
  presign_new_version, put, complete_upload, invalidate_versions, invalidate_files, Answers,
  mime_or_default, reports, report, upload,
}

-- The state that the hook is left in, from the one it had.
abbrev pub final : VersionUploadState → List Effect → VersionUploadState
final st [] = st
final st (set_state st' ∷ es) = final st' es
final st (_ ∷ es) = final st es

final-append :
    (st : VersionUploadState) (es fs : List Effect) → final st (es ++ fs) ≡ final (final st es) fs
final-append st [] fs = refl
final-append st (set_state st' ∷ es) fs = final-append st' es fs
final-append st (_ ∷ es) fs = final-append st es fs

-- How the three requests end, as one answer: the first failure, or the presigned file.
abbrev pub overall : Answers → Answer PresignResponse
overall a = elim a.presign [
  | threw e ↦ threw e
  | ok p ↦ elim a.put [
    | threw e ↦ threw e
    | ok _ ↦ elim a.complete [ threw e ↦ threw e | ok _ ↦ ok p ]
  ]
]

-- What a run leaves behind
abbrev pub final_of : Answer PresignResponse → VersionUploadState
final_of (ok p) = idle
final_of (threw e) = error (failure_text "Upload failed" e)

upload-final_parts :
    (id : String) (file : File) (presign : Answer PresignResponse) (events : List ProgressEvent)
    (sent completed : Answer (Unit {0})) (st : VersionUploadState)
    → truthy id ≡ true
    → let a : Answers = record {
      presign = presign;
      progress = events;
      put = sent;
      complete = completed;
    } in
      final st (upload (some id) file a) ≡ final_of (overall a)
unfolding upload
upload-final_parts id file (threw e) events sent completed st t = rw t refl
upload-final_parts id file (ok p) events (threw e) completed st t = rw t (simp final-append)
upload-final_parts id file (ok p) events (ok u) (threw e) st t = rw t (simp final-append)
upload-final_parts id file (ok p) events (ok u) (ok v) st t = rw t (simp final-append)

-- Whatever the requests answer, a run comes to an end: in `idle` exactly if all three succeeded,
-- and otherwise in `error` with the text of the first failure.
pub upload-final :
    (id : String) (file : File) (a : Answers) (st : VersionUploadState)
    → truthy id ≡ true
    → final st (upload (some id) file a) ≡ final_of (overall a)
unfolding upload
upload-final id file a st t = upload-final_parts id file a.presign a.progress a.put a.complete st t

abbrev pub is_request : Effect → Bool
is_request (presign_new_version id size type) = true
is_request (put url type) = true
is_request (complete_upload id) = true
is_request _ = false

abbrev pub is_invalidation : Effect → Bool
is_invalidation (invalidate_versions id) = true
is_invalidation invalidate_files = true
is_invalidation _ = false

filter-report :
    (q : Effect → Bool) (loaded : ℕ) (total : Option ℕ)
    → ((n : Option ℕ) → q (set_state (uploading n)) ≡ false)
    → filter q (report (λ n. set_state (uploading n)) loaded total) ≡ []
unfolding report
filter-report q loaded none h = refl
filter-report q loaded (some total) h = ground (arith, h (round_percent loaded total))

filter-reports :
    (q : Effect → Bool) (events : List ProgressEvent)
    → ((n : Option ℕ) → q (set_state (uploading n)) ≡ false)
    → filter q (reports (λ n. set_state (uploading n)) events) ≡ []
unfolding reports
filter-reports q [] h = refl
filter-reports q (e ∷ es) h =
    rw
      (filter-append q (report (λ n. set_state (uploading n)) e.loaded e.total)
        (reports (λ n. set_state (uploading n)) es))
      (rw (filter-report q e.loaded e.total h) (filter-reports q es h))

-- The requests that a run makes: each is made only after the one before has succeeded, the bytes go
-- to the presigned address, and what is completed is the presigned file, not the replaced one.
abbrev pub requests_of : String → File → Answers → List Effect
requests_of id file a =
    presign_new_version id file.size (mime_or_default file.type) ∷ elim a.presign [
      | threw e ↦ []
      | ok p ↦
          put p.upload_url (mime_or_default file.type)
          ∷ elim a.put [ threw e ↦ [] | ok _ ↦ complete_upload p.file_id ∷ [] ]
    ]

abbrev pub invalidations_of : String → Answer PresignResponse → List Effect
invalidations_of id (ok p) = invalidate_versions id ∷ invalidate_files ∷ []
invalidations_of id (threw e) = []

upload-requests_parts :
    (id : String) (file : File) (presign : Answer PresignResponse) (events : List ProgressEvent)
    (sent completed : Answer (Unit {0}))
    → truthy id ≡ true
    → let a : Answers = record {
      presign = presign;
      progress = events;
      put = sent;
      complete = completed;
    } in
      (filter is_request (upload (some id) file a) ≡ requests_of id file a)
      × (filter is_invalidation (upload (some id) file a) ≡ invalidations_of id (overall a))
unfolding upload
upload-requests_parts id file (threw e) events sent completed t = rw t (refl, refl)
upload-requests_parts id file (ok p) events (threw e) completed t = rw t (
  simp (filter-append, filter-reports is_request events (λ n. refl)),
  simp (filter-append, filter-reports is_invalidation events (λ n. refl)),
)
upload-requests_parts id file (ok p) events (ok u) (threw e) t = rw t (
  simp (filter-append, filter-reports is_request events (λ n. refl)),
  simp (filter-append, filter-reports is_invalidation events (λ n. refl)),
)
upload-requests_parts id file (ok p) events (ok u) (ok v) t = rw t (
  simp (filter-append, filter-reports is_request events (λ n. refl)),
  simp (filter-append, filter-reports is_invalidation events (λ n. refl)),
)

-- A run makes the requests of `requests_of` and no other, in that order, and it invalidates the
-- caches of the versions and of the files exactly if all three requests succeeded.
pub upload-requests :
    (id : String) (file : File) (a : Answers)
    → truthy id ≡ true
    → (filter is_request (upload (some id) file a) ≡ requests_of id file a)
      × (filter is_invalidation (upload (some id) file a) ≡ invalidations_of id (overall a))
upload-requests id file a t = upload-requests_parts id file a.presign a.progress a.put a.complete t
