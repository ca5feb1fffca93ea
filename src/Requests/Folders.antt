-- ===== src/Requests/Folders.antt =====
-- lib/api/folders.ts
use optiflow.Prelude.{Option, List, ◌∷◌, ◌++◌, String, concat}
use optiflow.Requests.{
  api, get, post, patch, delete, Request, plain, with_body, param_if, str, str_field, Nullable,
  null_as_empty,
}
use optiflow.Requests.Files.{FileRecord}

pub record Folder : Type 0 where
  pub id : String
  pub name : String
  pub user_id : String
  pub parent_id : Option String
  pub created_at : String
  pub updated_at : String

pub record FolderDetail : Type 0 where
  pub folder : Folder
  pub children : List Folder
  pub files : List FileRecord

unfoldable pub list_folders : Option String → Request
list_folders parent_id = record (plain api get "/folders/") {
  params = param_if "parent_id" parent_id;
}

unfoldable pub get_folder : String → Request
get_folder id = plain api get (concat "/folders/" id)

unfoldable pub create_folder : String → Option String → Request
create_folder name parent_id =
    with_body api post "/folders/" (("name", str name) ∷ str_field "parent_id" parent_id)

-- `{ name?: string; parent_id?: string | null }`
pub record FolderUpdate : Type 0 where
  pub name : Option String
  pub parent_id : Nullable

unfoldable pub update_folder : String → FolderUpdate → Request
update_folder id payload =
    with_body api patch (concat "/folders/" id)
      (str_field "name" payload.name ++ str_field "parent_id" (null_as_empty payload.parent_id))

unfoldable pub delete_folder : String → Request
delete_folder id = plain api delete (concat "/folders/" id)
