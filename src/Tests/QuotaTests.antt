-- ===== src/Tests/QuotaTests.antt =====
-- The quota, lost files and the order of rows at concrete tables.
use optiflow.Prelude.{
  ℕ, ◌+◌, ◌^◌, ◌≤◌, ◌≡◌, refl, ◌⊎◌, ◌↔◌, true, false, Option, none, some, [], ◌∷◌, any, arith,
  nat_eq,
}
use optiflow.Server.Folders.{absent, resolve_owned_folder, no_content, children_of, delete_row}
use optiflow.Server.Files.{resolve_owned_file, restore_file_version, list_files}
use optiflow.Server.Files.Uploads.{
  within, beyond, check_quota, used_bytes, presign, presign_version,
}
use optiflow.Server.Files.Completion.{Finished, tus_pre_create, finish_tus_upload}
use optiflow.Server.Files.Tree.{delete_folder_files, current_in}
use optiflow.Server.Files.Usage.{check_quota_iff, presign_within_quota}
use optiflow.Server.Files.Overrun.{tus_over_quota}
use optiflow.Server.Files.Lost.{IsPlace, restore_into_deleted}
use mathlib.Core.List.{Permᴰ}
use optiflow.Server.Files.Order.{IsSame, versions-order_free}
use optiflow.Tests.VersionData.{services, first, second, folder, tables, versions, reached_3}

check_quota_iff_example :
    (check_quota services.quota_of 7 70 versions ≡ within)
    ↔ ((used_bytes 7 versions + 70 ≤ 100) ⊎ (2 ^ 63 ≤ used_bytes 7 versions + 70))
unfolding used_bytes
check_quota_iff_example =
    check_quota_iff services.quota_of 7 100 70 versions refl (ground arith) (ground arith)
      (ground arith)

-- a size with which the sum is no int64 passes, although the quota is 100 bytes
overflow_passes : check_quota services.quota_of 7 9223372036854775807 versions ≡ within
unfolding check_quota
overflow_passes = refl

presign_within_quota_example :
    (used_bytes 7
        (presign services.quota_of services.text services.sign 7 4
          (folder ∷ [])
          "b"
          (some 70)
          "text/plain"
          absent
          versions).0
      ≤ 100)
    × (used_bytes 7
          (presign_version services.quota_of services.text services.sign 7 1 4
            (some 70)
            "text/plain"
            versions).0
        ≤ 100)
unfolding used_bytes
presign_within_quota_example =
    presign_within_quota services.quota_of services.text services.sign 7 4 100 refl (ground arith)
      70 versions (ground arith) (ground arith) (folder ∷ []) "b" "text/plain" absent 1

abbrev tus : ℕ → Finished ℕ
tus size = record {
  owner = some 7;
  filename = "b";
  name = "";
  upload_id = "u";
  filetype = "";
  folder = none;
  size = size;
}

tus_over_quota_example :
    (check_quota services.quota_of 7 50
        (presign services.quota_of services.text services.sign 7 4
          (folder ∷ [])
          "b"
          (some 60)
          "text/plain"
          absent
          versions).0
      ≡ beyond (used_bytes 7 versions + 60) 100 50)
    × (used_bytes 7
          (finish_tus_upload services.text 5
            (tus 50)
            true
            (finish_tus_upload services.text 4 (tus 60) true versions).0).0
        ≡ used_bytes 7 versions + 60 + 50)
unfolding tus_pre_create used_bytes check_quota
tus_over_quota_example =
    tus_over_quota services.quota_of services.text services.sign 7 4 5 100 (folder ∷ []) "b"
      "text/plain" (tus 60) (tus 60) (tus 50) (tus 50) versions refl refl refl (ground arith)
      (ground arith) refl

restore_into_deleted_example :
    (delete_folder_files 1 7 3 (tables versions)
      ≡ (record (tables versions) { folders = delete_row 7 3 (folder ∷ []) }, [], no_content))
    × (resolve_owned_file 7 1 (restore_file_version 7 2 1 versions).0
        ≡ some (record (first false) { is_current = true }))
    × ((p : Option ℕ)
        → IsPlace 7 p (delete_row 7 3 (folder ∷ []))
        → any (λ g. nat_eq.beq g.id 1) (list_files 7 p (restore_file_version 7 2 1 versions).0)
          ≡ false)
unfolding resolve_owned_file resolve_owned_folder children_of current_in
restore_into_deleted_example =
    restore_into_deleted services (tables versions) 7 2 1 3 (second none true) (first false) folder
      reached_3 refl refl refl refl refl refl refl

versions-order_free_example :
    IsSame
      (presign_version services.quota_of services.text services.sign 7 1 4
        (some 30)
        "text/plain"
        versions)
      (presign_version services.quota_of services.text services.sign 7 1 4
        (some 30)
        "text/plain"
        (second none true ∷ first false ∷ []))
    × IsSame
        (restore_file_version 7 1 1 versions)
        (restore_file_version 7 1 1 (second none true ∷ first false ∷ []))
versions-order_free_example =
    versions-order_free services (tables versions) (second none true ∷ first false ∷ []) 7 1 4 1
      (some 30) "text/plain" reached_3 (Permᴰ.swap refl refl)
