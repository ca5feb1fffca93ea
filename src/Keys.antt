-- ===== src/Keys.antt =====
-- The query keys of lib/hooks/*.ts (frontend), and what each mutation invalidates when it succeeds.
--
-- The cache is TanStack Query's: `QueryClient` is its test whether invalidateQueries({ queryKey: k
-- }) reaches the query with key q, which is documented to hold exactly if q begins with k. A key is
-- a list of texts. The key of useFileDownloadUrl with no file, whose second part is null, is that
-- of a disabled query and is not modelled.
pub mod Coverage
pub mod Staleness
use optiflow.Prelude.{
  ℕ, ◌≡◌, Bool, true, false, Option, none, some, List, [], ◌∷◌, ◌++◌, String, is_truthy, or_else,
  any, if◌then◌else◌,
}
use optiflow.Requests.Files.{FileRecord, FileStatus, pending, processing, ready, failed}

abbrev pub QueryKey : Type 0
QueryKey = List String

pub record QueryClient : Type 0 where
  pub matches : QueryKey → QueryKey → Bool
  pub matches_prefix : (k r : QueryKey) → matches k (k ++ r) ≡ true
  pub prefix_of_matches : (k q : QueryKey) → matches k q ≡ true → (r : QueryKey) × (q ≡ k ++ r)

-- use-files.ts
unfoldable pub files_key : Option String → QueryKey
files_key folder_id = "files" ∷ or_else folder_id "root" ∷ []

unfoldable pub file_key : Option String → QueryKey
file_key none = "file" ∷ "none" ∷ []
file_key (some id) = if is_truthy (some id) then "file" ∷ id ∷ [] else "file" ∷ "none" ∷ []

unfoldable pub file_stats_key : QueryKey
file_stats_key = "files" ∷ "stats" ∷ []

unfoldable pub download_url_key : String → Option String → QueryKey
download_url_key file_id variant = "download-url" ∷ file_id ∷ or_else variant "original" ∷ []

-- the refetchInterval of useFiles; `none` is false
abbrev pub is_in_flight : FileStatus → Bool
is_in_flight processing = true
is_in_flight pending = true
is_in_flight _ = false

unfoldable pub refetch_interval : Option (List FileRecord) → Option ℕ
refetch_interval none = none
refetch_interval (some files) = if any (λ f. is_in_flight f.status) files then some 3000 else none

-- `enabled: !!id` of useFile, useFolder, useFileVersions, useFileShares and useFileDownloadUrl
unfoldable pub enabled : Option String → Bool
enabled id = is_truthy id

-- use-file-versions.ts, use-folders.ts, use-shares.ts, use-notifications.ts, use-me.ts
unfoldable pub file_versions_key : Option String → QueryKey
file_versions_key file_id = "file-versions" ∷ or_else file_id "none" ∷ []

unfoldable pub folders_key : Option String → QueryKey
folders_key parent_id = "folders" ∷ or_else parent_id "root" ∷ []

unfoldable pub folder_key : String → QueryKey
folder_key id = "folder" ∷ id ∷ []

unfoldable pub shares_key : QueryKey
shares_key = "shares" ∷ []

unfoldable pub file_shares_key : Option String → QueryKey
file_shares_key file_id = "shares" ∷ "file" ∷ or_else file_id "none" ∷ []

unfoldable pub me_key : QueryKey
me_key = "me" ∷ []

-- What onSuccess invalidates. useUpdateFile and useDeleteFile:
unfoldable pub after_file_change : List QueryKey
after_file_change = ("files" ∷ []) ∷ []

-- useRestoreFileVersion
unfoldable pub after_restore : Option String → List QueryKey
unfolding file_versions_key
after_restore file_id = file_versions_key file_id ∷ ("files" ∷ []) ∷ []

-- useFileUpload's `invalidate`
unfoldable pub after_upload : Option String → List QueryKey
unfolding files_key
after_upload folder_id = files_key folder_id ∷ []

-- useCreateFolder, for the folder that the server returns
unfoldable pub after_create_folder : (parent_id : Option String) → List QueryKey
unfolding folders_key
after_create_folder parent_id = folders_key parent_id ∷ []

-- useUpdateFolder: the id of the call, and the parent that the server returns
unfoldable pub after_update_folder : String → (parent_id : Option String) → List QueryKey
unfolding folder_key folders_key
after_update_folder id parent_id = folder_key id ∷ folders_key parent_id ∷ ("folders" ∷ []) ∷ []

unfoldable pub after_delete_folder : List QueryKey
after_delete_folder = ("folders" ∷ []) ∷ ("files" ∷ []) ∷ []

unfoldable pub after_create_share : String → List QueryKey
unfolding file_shares_key
after_create_share file_id = ("shares" ∷ []) ∷ file_shares_key (some file_id) ∷ []

unfoldable pub after_delete_share : List QueryKey
after_delete_share = ("shares" ∷ []) ∷ []

unfoldable pub after_update_me : List QueryKey
after_update_me = ("me" ∷ []) ∷ []

-- Whether one of the keys reaches a query.
abbrev pub invalidated : QueryClient → List QueryKey → QueryKey → Bool
invalidated client keys q = any (λ k. client.matches k q) keys
