-- ===== src/Server/Folders.antt =====
-- backend/cmd/api-svc/handlers_folder.go: the folders' table and what the handlers do with it, from
-- the parsed request on. `U` is the type of uuids.
--
-- The loop of isDescendant takes fuel, and `none` is a loop that has not ended; Folders.Walk and
-- Answers show when it ends. The database's own failures are left out.
pub mod Walk
pub mod Rows
pub mod Forest
pub mod Creation
pub mod Deletion
pub mod Handlers
pub mod Answers
pub mod Race
pub mod Removal
pub mod Distinct
pub mod Keyed
pub mod Depth
use optiflow.Prelude.{
  ℕ, zero, suc, Bool, true, false, ◌&&◌, Option, none, some, List, [], ◌∷◌, ◌++◌, String, map,
  filter, not, truthy, if◌then◌else◌, Eq,
}

-- models.Folder, without the times
pub record Folder (U : Type 0) : Type 0 where
  pub id : U
  pub name : String
  pub user_id : U
  pub parent_id : Option U

-- folderRequest, with `parent_id` as uuid.Parse gives it: absent, "" or an id. A text that is no
-- uuid is refused before the database is read.
pub data ParentField (U : Type 0) : Type 0 where
  absent to_root : ParentField U
  into : U → ParentField U

pub data Response : Type 0 where
  bad_request not_found : String → Response
  created saved no_content : Response
  -- the loop of isDescendant has not ended
  hanging : Response

module _ {U : Type 0} ⦃e : Eq U⦄ where
  -- `Where("id = ? AND user_id = ?").First`
  unfoldable pub resolve_owned_folder : U → U → List (Folder U) → Option (Folder U)
  resolve_owned_folder user id [] = none
  resolve_owned_folder user id (f ∷ fs) =
      if e.beq f.id id && e.beq f.user_id user then some f else resolve_owned_folder user id fs

  abbrev pub parent_of : Option (Folder U) → Option U
  parent_of none = none
  parent_of (some f) = f.parent_id

  unfoldable pub is_descendant : ℕ → List (Folder U) → U → U → U → Option Bool
  is_descendant zero db user folder current = none
  is_descendant (suc fuel) db user folder current = elim (e.beq current folder) [
    | true ↦ some true
    | false ↦ elim (parent_of (resolve_owned_folder user current db)) [
      | none ↦ some false
      | some p ↦ is_descendant fuel db user folder p
    ]
  ]

  -- `db.Save`: the row with the primary key of the argument becomes the argument
  unfoldable pub save : Folder U → List (Folder U) → List (Folder U)
  save row db = map (λ f. if e.beq f.id row.id then row else f) db

  abbrev pub named : String → Folder U → Folder U
  named name row = if truthy name then record row { name = name } else row

  move_checked : Folder U → U → List (Folder U) → Option Bool → List (Folder U) × Response
  unfolding save
  move_checked row p db none = (db, hanging)
  move_checked row p db (some true) =
      (db, bad_request "cannot move a folder into itself or one of its descendants")
  move_checked row p db (some false) = (save (record row { parent_id = some p }) db, saved)

  move_into :
      ℕ → U → Folder U → U → List (Folder U) → Option (Folder U) → List (Folder U) × Response
  unfolding move_checked is_descendant
  move_into fuel user row p db none = (db, bad_request "parent folder not found")
  move_into fuel user row p db (some target) =
      move_checked row p db (is_descendant fuel db user row.id p)

  place : ℕ → U → Folder U → ParentField U → List (Folder U) → List (Folder U) × Response
  unfolding move_into save resolve_owned_folder
  place fuel user row absent db = (save row db, saved)
  place fuel user row to_root db = (save (record row { parent_id = none }) db, saved)
  place fuel user row (into p) db = move_into fuel user row p db (resolve_owned_folder user p db)

  update_found :
      ℕ
      → U
      → Option (Folder U)
      → String
      → ParentField U
      → List (Folder U)
      → List (Folder U) × Response
  unfolding place
  update_found fuel user none name parent db = (db, not_found "folder not found")
  update_found fuel user (some row) name parent db = place fuel user (named name row) parent db

  unfoldable pub update_folder :
      ℕ → U → U → String → ParentField U → List (Folder U) → List (Folder U) × Response
  unfolding update_found resolve_owned_folder
  update_folder fuel user id name parent db =
      update_found fuel user (resolve_owned_folder user id db) name parent db

  -- `id` is what the database makes up for the new row
  create_in : U → U → String → Option U → List (Folder U) → List (Folder U) × Response
  create_in user id name parent db =
      (db ++ record { id = id; name = name; user_id = user; parent_id = parent } ∷ [], created)

  create_under :
      U → U → String → U → List (Folder U) → Option (Folder U) → List (Folder U) × Response
  unfolding create_in
  create_under user id name p db none = (db, bad_request "parent folder not found")
  create_under user id name p db (some target) = create_in user id name (some p) db

  create_named : U → U → String → Option U → List (Folder U) → List (Folder U) × Response
  unfolding create_in create_under resolve_owned_folder
  create_named user id name none db = create_in user id name none db
  create_named user id name (some p) db =
      create_under user id name p db (resolve_owned_folder user p db)

  unfoldable pub create_folder :
      U → U → String → Option U → List (Folder U) → List (Folder U) × Response
  unfolding create_named
  create_folder user id name parent db =
      if truthy name
      then create_named user id name parent db
      else (db, bad_request "name is required")

  -- the last statement of deleteFolderTree: `Where("id = ? AND user_id = ?").Delete`
  unfoldable pub delete_row : U → U → List (Folder U) → List (Folder U)
  delete_row user id db = filter (λ f. not (e.beq f.id id && e.beq f.user_id user)) db

  abbrev pub is_parent : U → Option U → Bool
  is_parent id none = false
  is_parent id (some p) = e.beq p id

  -- the children that deleteFolderTree goes through
  unfoldable pub children_of : U → U → List (Folder U) → List (Folder U)
  children_of user id db = filter (λ f. e.beq f.user_id user && is_parent id f.parent_id) db

  abbrev pub delete_from : U → U → Option (List (Folder U)) → Option (List (Folder U))
  delete_from user id none = none
  delete_from user id (some db) = some (delete_row user id db)

  unfoldable pub delete_each :
      (U → List (Folder U) → Option (List (Folder U)))
      → List (Folder U)
      → List (Folder U)
      → Option (List (Folder U))
  delete_each delete [] db = some db
  delete_each delete (c ∷ cs) db = elim (delete c.id db) [
    | none ↦ none
    | some db' ↦ delete_each delete cs db'
  ]

  -- deleteFolderTree, without the files and the shares; it takes fuel for the depth of the tree
  unfoldable pub delete_folder_tree : ℕ → U → U → List (Folder U) → Option (List (Folder U))
  unfolding children_of delete_each delete_row
  delete_folder_tree zero user id db = none
  delete_folder_tree (suc fuel) user id db =
      delete_from user id (delete_each (delete_folder_tree fuel user) (children_of user id db) db)

  unfoldable pub deleted : List (Folder U) → Option (List (Folder U)) → List (Folder U) × Response
  deleted db none = (db, hanging)
  deleted db (some db') = (db', no_content)

  unfoldable pub delete_found :
      ℕ → U → U → List (Folder U) → Option (Folder U) → List (Folder U) × Response
  unfolding deleted delete_folder_tree
  delete_found fuel user id db none = (db, not_found "folder not found")
  delete_found fuel user id db (some f) = deleted db (delete_folder_tree fuel user id db)

  unfoldable pub delete_folder : ℕ → U → U → List (Folder U) → List (Folder U) × Response
  unfolding delete_found resolve_owned_folder
  delete_folder fuel user id db = delete_found fuel user id db (resolve_owned_folder user id db)
