-- ===== src/Requests/Placement.antt =====
-- updateFile of backend/cmd/api-svc/handlers_file.go and updateFolder of handlers_folder.go, from
-- the decoded body to the row that is saved, and what becomes of a payload of updateFile or
-- updateFolder of lib/api when it arrives there.
--
-- uuid.Parse, the look-up of an owned folder and the check for cycles are parameters; the look-up
-- of the row itself and the database's own failures are left out.
use optiflow.Prelude.{
  ◌≡◌, refl, Bool, not, Option, none, some, List, [], ◌∷◌, String, str_eq, truthy, if◌then◌else◌,
  arith,
}
use optiflow.Requests.{Json, str, num, Nullable, undefined, null, value}
use optiflow.Requests.Files.{update_file}
use optiflow.Requests.Folders.{update_folder}

-- A field of the decoded body that is a text.
abbrev text_of : Json → Option String
text_of (str s) = some s
text_of (num n) = none

text_field : String → List (String × Json) → Option String
text_field key [] = none
text_field key ((k, v) ∷ fields) = if str_eq k key then text_of v else text_field key fields

-- What an update can change of a row, `folder` being the file's folder or the folder's parent.
pub record Row (U : Type 0) : Type 0 where
  pub name : String
  pub folder : Option U

pub data Response (U : Type 0) : Type 0 where
  bad_request : String → Response U
  saved : Row U → Response U

-- uuid.Parse; whether the user owns a folder; whether a move there would make a cycle
pub record Folders (U : Type 0) : Type 0 where
  pub parse : String → Option U
  pub owned : U → Bool
  pub cyclic : U → Bool

module _ {U : Type 0} (db : Folders U) where
  abbrev file_into : Row U → Option U → Response U
  file_into row none = bad_request "invalid folder_id"
  file_into row (some u) =
      if db.owned u then saved (record row { folder = some u }) else bad_request "folder not found"

  place_file : Row U → Option String → Response U
  place_file row none = saved row
  place_file row (some s) =
      if truthy s then file_into row (db.parse s) else saved (record row { folder = none })

  name_file : Row U → Option String → Option String → Response U
  unfolding place_file
  name_file row none folder = place_file row folder
  name_file row (some n) folder =
      if truthy n
      then place_file (record row { name = n }) folder
      else bad_request "name cannot be empty"

  unfoldable pub server_update_file : Row U → List (String × Json) → Response U
  unfolding name_file text_field
  server_update_file row fields =
      name_file row (text_field "name" fields) (text_field "folder_id" fields)

  abbrev folder_into : Row U → Option U → Response U
  folder_into row none = bad_request "invalid parent_id"
  folder_into row (some u) =
      if not (db.owned u)
      then bad_request "parent folder not found"
      else if db.cyclic u
      then bad_request "cannot move a folder into itself or one of its descendants"
      else saved (record row { folder = some u })

  place_folder : Row U → Option String → Response U
  place_folder row none = saved row
  place_folder row (some s) =
      if truthy s then folder_into row (db.parse s) else saved (record row { folder = none })

  name_folder : Row U → Option String → Row U
  name_folder row none = row
  name_folder row (some n) = if truthy n then record row { name = n } else row

  unfoldable pub server_update_folder : Row U → List (String × Json) → Response U
  unfolding name_folder place_folder text_field
  server_update_folder row fields =
      place_folder (name_folder row (text_field "name" fields)) (text_field "parent_id" fields)

  -- What the caller of updateFile means by `folder_id`: leave it, the root, or a folder.
  abbrev pub meant_file : Row U → Nullable → Response U
  meant_file row undefined = saved row
  meant_file row null = saved (record row { folder = none })
  meant_file row (value s) =
      if truthy s then file_into row (db.parse s) else saved (record row { folder = none })

  -- Moving a file: a payload with no name does on the server what its `folder_id` means, whether it
  -- is left out, null or a folder; an empty text counts as null.
  pub update_file-folder :
      (id : String) (row : Row U) (folder : Nullable)
      → server_update_file row (update_file id (record { name = none; folder_id = folder })).body
        ≡ meant_file row folder
  unfolding server_update_file update_file
  update_file-folder id row undefined = refl
  update_file-folder id row null = refl
  update_file-folder id row (value s) = ground arith

  -- Renaming a file: the name is taken over and the folder is left alone, and an empty name is
  -- refused.
  pub update_file-name :
      (id name : String) (row : Row U)
      → server_update_file row
          (update_file id (record { name = some name; folder_id = undefined })).body
        ≡ (if truthy name
            then saved (record row { name = name })
            else bad_request "name cannot be empty")
  unfolding server_update_file update_file
  update_file-name id name row = ground arith

  abbrev pub meant_folder : Row U → Nullable → Response U
  meant_folder row undefined = saved row
  meant_folder row null = saved (record row { folder = none })
  meant_folder row (value s) =
      if truthy s then folder_into row (db.parse s) else saved (record row { folder = none })

  -- Moving a folder: a payload of updateFolder with no name does on the server what its `parent_id`
  -- means, left out, null or a folder, with the server's check for cycles; and a payload with a
  -- name alone renames the folder unless the name is empty, which is ignored.
  pub update_folder-parent :
      (id name : String) (row : Row U) (parent : Nullable)
      → (server_update_folder row
            (update_folder id (record { name = none; parent_id = parent })).body
          ≡ meant_folder row parent)
        × (server_update_folder row
              (update_folder id (record { name = some name; parent_id = undefined })).body
            ≡ saved (if truthy name then record row { name = name } else row))
  unfolding server_update_folder update_folder
  update_folder-parent id name row undefined = (refl, refl)
  update_folder-parent id name row null = (refl, refl)
  update_folder-parent id name row (value s) = (ground arith, refl)
