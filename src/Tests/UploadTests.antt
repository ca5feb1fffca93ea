-- ===== src/Tests/UploadTests.antt =====
-- lib/hooks/use-upload.ts and use-file-versions.ts at concrete inputs.
use optiflow.Prelude.{ℕ, ◌≡◌, refl, none, some, List, [], ◌∷◌, filter}
use optiflow.Failure.{ok, threw, other_error}
use optiflow.Upload.{
  File, UploadItem, uploading, Hook, Event, starting, dismissing, progressing, succeeding,
  elsewhere, round_percent, step, run, apply,
}
use optiflow.Upload.Identity.{ids, IsAscending, run-IsAscending}
use optiflow.Upload.Patching.{find}
use optiflow.Versions.{idle, Answers, upload}
use optiflow.Versions.Laws.{
  final, final_of, overall, is_request, is_invalidation, requests_of, invalidations_of,
  upload-final, upload-requests,
}

uploads : Unit {0}
unfolding run step find apply round_percent
uploads = tt

abbrev photo : File
photo = record { name = "a.png"; type = "image/png"; size = 10 }

abbrev busy : List Event
busy =
    starting photo
    ∷ elsewhere
    ∷ starting photo
    ∷ progressing 1 1 3
    ∷ dismissing 1
    ∷ succeeding 1
    ∷ starting photo
    ∷ []

listed :
    ids (run (record { folder_id = none; upload_counter = 0; uploads = [] }) busy).uploads
    ≡ 3 ∷ 4 ∷ []
unfolding uploads
listed = refl

run-IsAscending_example :
    IsAscending
      (ids (run (record { folder_id = none; upload_counter = 0; uploads = [] }) busy).uploads)
run-IsAscending_example = run-IsAscending none 0 busy

abbrev item : ℕ → UploadItem
item n = record { id = n; file = photo; progress = some 7; status = uploading; error_text = none }

abbrev two : Hook
two = record { folder_id = none; upload_counter = 2; uploads = item 1 ∷ item 2 ∷ [] }

abbrev put_fails : Answers
put_fails = record {
  presign = ok (record { file_id = "f2"; upload_url = "http://minio" });
  progress = record { loaded = 1; total = some 4 } ∷ [];
  put = threw other_error;
  complete = ok tt;
}

upload-final_example :
    final idle (upload (some "f1") photo put_fails) ≡ final_of (overall put_fails)
upload-final_example = upload-final "f1" photo put_fails idle refl

upload-requests_example :
    (filter is_request (upload (some "f1") photo put_fails) ≡ requests_of "f1" photo put_fails)
    × (filter is_invalidation (upload (some "f1") photo put_fails)
        ≡ invalidations_of "f1" (overall put_fails))
upload-requests_example = upload-requests "f1" photo put_fails refl
