-- ===== src/Server/Files/Uploads.antt =====
-- backend/cmd/upload-svc, handlers.go and handlers_versions.go: the quota, and the requests that
-- start an upload.
--
-- An int64 is a natural number below 2 ^ 63 where it cannot be negative. `sign` gives
-- the URL for a key, `text` the text of a uuid.
use optiflow.Prelude.{
  ℕ, ◌+◌, ◌-◌, ◌^◌, Bool, true, false, ◌&&◌, Option, none, some, List, [], ◌∷◌, ◌++◌, String,
  truthy, ltb, concat, if◌then◌else◌, Eq,
}
use optiflow.Server.Shares.{ℤ, pos, negsuc}
use optiflow.Server.Folders.{Folder, ParentField, absent, to_root, into, resolve_owned_folder}
use optiflow.Server.Files.{
  File, FileStatus, pending, Answer, refused, over_quota, upload_to, lineage_root_id, in_lineage,
  resolve_owned_file, supersede,
}

-- the sum of two such int64 values, as the int64 that Go computes
abbrev pub int64_add : ℕ → ℕ → ℤ
int64_add a b = if ltb (a + b) (2 ^ 63) then pos (a + b) else negsuc (2 ^ 64 - (a + b) - 1)

abbrev pub exceeds : ℤ → ℕ → Bool
exceeds (pos n) quota = ltb quota n
exceeds (negsuc n) quota = false

pub data Quota : Type 0 where
  within unknown : Quota
  beyond : ℕ → ℕ → ℕ → Quota

unfoldable pub compare_quota : Option ℕ → ℕ → ℕ → Quota
compare_quota none used incoming = unknown
compare_quota (some quota) used incoming =
    if exceeds (int64_add used incoming) quota then beyond used quota incoming else within

module _ {U : Type 0} ⦃e : Eq U⦄ where
  -- `COALESCE(SUM(size_bytes), 0)`; the scan of a sum of 2 ^ 63 or more fails, which is left out
  unfoldable pub used_bytes : U → List (File U) → ℕ
  used_bytes user [] = 0
  used_bytes user (f ∷ fs) = (if e.beq f.user_id user then f.size_bytes else 0) + used_bytes user fs

  -- `quota_of` is the column storage_quota_bytes of the table of users
  unfoldable pub check_quota : (U → Option ℕ) → U → ℕ → List (File U) → Quota
  unfolding compare_quota used_bytes
  check_quota quota_of user incoming files =
      compare_quota (quota_of user) (used_bytes user files) incoming

  -- `Where("... AND is_current = ?").First`
  unfoldable pub current_version : U → U → List (File U) → Option (File U)
  current_version user root [] = none
  current_version user root (f ∷ fs) =
      if in_lineage user root f && f.is_current then some f else current_version user root fs

  -- `COALESCE(MAX(version), 0)`
  unfoldable pub max_version : U → U → List (File U) → ℕ
  max_version user root [] = 0
  max_version user root (f ∷ fs) =
      let rest = max_version user root fs in
      if in_lineage user root f && ltb rest f.version then f.version else rest

  -- `fmt.Sprintf("users/%s/%s/%s", userID, fileID, name)`
  abbrev pub storage_key_of : (U → String) → U → U → String → String
  storage_key_of text user id name =
      concat "users/" (concat (text user) (concat "/" (concat (text id) (concat "/" name))))

  -- the row of a new file; `is_current` is the column's default
  abbrev pub new_file : (U → String) → U → U → String → ℕ → String → Option U → FileStatus → File U
  new_file text user id name size mime folder status = record {
    id = id;
    name = name;
    user_id = user;
    folder_id = folder;
    storage_key = storage_key_of text user id name;
    size_bytes = size;
    mime_type = mime;
    status = status;
    thumbnail_key = none;
    playlist_key = none;
    version = 1;
    parent_id = none;
    is_current = true;
  }

  -- the row of a new version
  unfoldable pub new_version : (U → String) → U → U → U → ℕ → ℕ → String → File U → File U
  new_version text user id root version size mime current = record {
    id = id;
    name = current.name;
    user_id = user;
    folder_id = current.folder_id;
    storage_key = storage_key_of text user id current.name;
    size_bytes = size;
    mime_type = mime;
    status = pending;
    thumbnail_key = none;
    playlist_key = none;
    version = version;
    parent_id = some root;
    is_current = true;
  }

  -- the transaction: the lineage is superseded and the row created
  unfoldable pub add_version : U → U → File U → List (File U) → List (File U)
  unfolding supersede
  add_version user root f files = supersede user root files ++ f ∷ []

  module _ (quota_of : U → Option ℕ) (text : U → String) (sign : String → Option String) where
    abbrev pub signed_answer : File U → Answer U
    signed_answer f = elim (sign f.storage_key) [
      | none ↦ refused 500 "could not start upload"
      | some url ↦ upload_to f.id url
    ]

    -- the folder of a request: none if it is not the user's
    abbrev pub folder_of : U → List (Folder U) → ParentField U → Option (Option U)
    folder_of user folders absent = some none
    folder_of user folders to_root = some none
    folder_of user folders (into p) = elim (resolve_owned_folder user p folders) [
      | none ↦ none
      | some _ ↦ some (some p)
    ]

    unfoldable pub presign_in :
        U → U → String → ℕ → String → Option (Option U) → List (File U) → List (File U) × Answer U
    presign_in user id name size mime none files = (files, refused 400 "folder not found")
    presign_in user id name size mime (some folder) files =
        let f = new_file text user id name size mime folder pending in
        (files ++ f ∷ [], signed_answer f)

    unfoldable pub presign_checked :
        U
        → U
        → String
        → ℕ
        → String
        → Option (Option U)
        → List (File U)
        → Quota
        → List (File U) × Answer U
    unfolding presign_in
    presign_checked user id name size mime folder files within =
        presign_in user id name size mime folder files
    presign_checked user id name size mime folder files unknown =
        (files, refused 500 "could not start upload")
    presign_checked user id name size mime folder files (beyond used quota incoming) =
        (files, over_quota used quota incoming)

    -- `size` is none where the request has no positive size_bytes
    unfoldable pub presign :
        U
        → U
        → List (Folder U)
        → String
        → Option ℕ
        → String
        → ParentField U
        → List (File U)
        → List (File U) × Answer U
    unfolding presign_checked check_quota resolve_owned_folder
    presign user id folders name none mime folder files =
        (files, refused 400 "name, size_bytes, and mime_type are required")
    presign user id folders name (some size) mime folder files =
        if truthy name && truthy mime
        then presign_checked user id name size mime (folder_of user folders folder) files
            (check_quota quota_of user size files)
        else (files, refused 400 "name, size_bytes, and mime_type are required")

    unfoldable pub presign_after :
        U → U → U → ℕ → String → Option (File U) → List (File U) → List (File U) × Answer U
    unfolding new_version add_version max_version
    presign_after user id root size mime none files = (files, refused 500 "could not start upload")
    presign_after user id root size mime (some current) files =
        let f = new_version text user id root (max_version user root files + 1) size mime current in
        (add_version user root f files, signed_answer f)

    unfoldable pub version_checked :
        U → U → U → ℕ → String → List (File U) → Quota → List (File U) × Answer U
    unfolding presign_after current_version
    version_checked user id root size mime files within =
        presign_after user id root size mime (current_version user root files) files
    version_checked user id root size mime files unknown =
        (files, refused 500 "could not start upload")
    version_checked user id root size mime files (beyond used quota incoming) =
        (files, over_quota used quota incoming)

    unfoldable pub presign_lineage :
        U → U → ℕ → String → Option (File U) → List (File U) → List (File U) × Answer U
    unfolding version_checked check_quota
    presign_lineage user id size mime none files = (files, refused 404 "file not found")
    presign_lineage user id size mime (some any_version) files =
        version_checked user id (lineage_root_id any_version) size mime files
          (check_quota quota_of user size files)

    -- `of` is the id in the URL, `id` that of the new row
    unfoldable pub presign_version :
        U → U → U → Option ℕ → String → List (File U) → List (File U) × Answer U
    unfolding presign_lineage resolve_owned_file
    presign_version user of id none mime files =
        (files, refused 400 "size_bytes and mime_type are required")
    presign_version user of id (some size) mime files =
        if truthy mime
        then presign_lineage user id size mime (resolve_owned_file user of files) files
        else (files, refused 400 "size_bytes and mime_type are required")
