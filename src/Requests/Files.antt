-- ===== src/Requests/Files.antt =====
-- lib/api/files.ts
use optiflow.Prelude.{ℕ, Bool, Option, List, ◌++◌, String, concat}
use optiflow.Requests.{
  api, get, post, patch, delete, Request, plain, with_body, param_if, str_field, Nullable,
  null_as_empty, path3,
}

pub data FileStatus : Type 0 where
  pending processing ready failed : FileStatus

pub record FileRecord : Type 0 where
  pub id : String
  pub name : String
  pub user_id : String
  pub folder_id : Option String
  pub size_bytes : ℕ
  pub mime_type : String
  pub status : FileStatus
  pub thumbnail_key : Option String
  pub playlist_key : Option String
  pub version : ℕ
  pub parent_id : Option String
  pub is_current : Bool
  pub created_at : String
  pub updated_at : String

pub record FileStats : Type 0 where
  pub total_files : ℕ
  pub total_bytes : ℕ
  pub status_counts : List (String × ℕ)
  pub type_counts : List (String × ℕ)

unfoldable pub list_files : Option String → Request
list_files folder_id = record (plain api get "/files/") { params = param_if "folder_id" folder_id }

unfoldable pub get_file : String → Request
get_file id = plain api get (concat "/files/" id)

-- `{ name?: string; folder_id?: string | null }`
pub record FileUpdate : Type 0 where
  pub name : Option String
  pub folder_id : Nullable

unfoldable pub update_file : String → FileUpdate → Request
update_file id payload =
    with_body api patch (concat "/files/" id)
      (str_field "name" payload.name ++ str_field "folder_id" (null_as_empty payload.folder_id))

unfoldable pub delete_file : String → Request
delete_file id = plain api delete (concat "/files/" id)

unfoldable pub get_file_stats : Request
get_file_stats = plain api get "/files/stats"

unfoldable pub list_file_versions : String → Request
list_file_versions id = plain api get (path3 "/files/" id "/versions")

unfoldable pub restore_file_version : String → String → Request
restore_file_version id version_id =
    plain api post (path3 "/files/" id (path3 "/versions/" version_id "/restore"))
