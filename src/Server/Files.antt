-- ===== src/Server/Files.antt =====
-- backend/internal/models/file.go, and the handlers of files and their versions: handlers_file.go
-- and handlers_versions.go of backend/cmd/api-svc, handlers.go and handlers_versions.go of
-- backend/cmd/upload-svc.
--
-- `U` is the type of uuids. A handler is modelled from the parsed request on, as a function of the
-- table of files; the database's own failures are left out, the storage and the table of users
-- (for the quota) are arguments, and `id` is what uuid.New gives. A row that a query wants first is
-- the first of the list.

pub mod Uploads
pub mod Completion
pub mod Tree
pub mod Lineages
pub mod Shapes
pub mod Added
pub mod Current
pub mod Superseding
pub mod Dropping
pub mod Deleted
pub mod Found
pub mod Starting
pub mod Editing
pub mod Trees
pub mod Refinement
pub mod Restoring
pub mod Reached
pub mod OneCurrent
pub mod Deletion
pub mod Succession
pub mod Race
pub mod Lost
pub mod Usage
pub mod Overrun
pub mod Permuted
pub mod Order
use optiflow.Prelude.{
  ℕ, ◌≤◌, Bool, true, false, not, ◌&&◌, ◌||◌, Option, none, some, List, [], ◌∷◌, ◌++◌, String, map,
  filter, any, truthy, leb, if◌then◌else◌, Eq,
}
use optiflow.Server.Folders.{
  Folder, ParentField, absent, to_root, into, is_parent, resolve_owned_folder,
}
use optiflow.Server.Shares.{Share}

pub data FileStatus : Type 0 where
  pending processing ready failed : FileStatus

-- models.File, without the times
pub record File (U : Type 0) : Type 0 where
  pub id : U
  pub name : String
  pub user_id : U
  pub folder_id : Option U
  pub storage_key : String
  pub size_bytes : ℕ
  pub mime_type : String
  pub status : FileStatus
  pub thumbnail_key : Option String
  pub playlist_key : Option String
  pub version : ℕ
  pub parent_id : Option U
  pub is_current : Bool

-- An answer: a status and a message, or what a success carries. `over_quota` is status 413 with
-- the bytes used, the quota and the bytes asked for in its message.
pub data Answer (U : Type 0) : Type 0 where
  refused : ℕ → String → Answer U
  over_quota : ℕ → ℕ → ℕ → Answer U
  row : File U → Answer U
  rows : List (File U) → Answer U
  upload_to : U → String → Answer U
  url : String → Answer U
  no_content : Answer U

abbrev pub lineage_root_id : {U : Type 0} → File U → U
lineage_root_id f = elim f.parent_id [ none ↦ f.id | some p ↦ p ]

module _ {U : Type 0} ⦃e : Eq U⦄ where
  -- `user_id = ? AND (id = ? OR parent_id = ?)`
  abbrev pub in_lineage : U → U → File U → Bool
  in_lineage user root f = e.beq f.user_id user && (e.beq f.id root || is_parent root f.parent_id)

  -- `Where("id = ? AND user_id = ?").First`
  unfoldable pub resolve_owned_file : U → U → List (File U) → Option (File U)
  resolve_owned_file user id [] = none
  resolve_owned_file user id (f ∷ fs) =
      if e.beq f.id id && e.beq f.user_id user then some f else resolve_owned_file user id fs

  unfoldable pub by_version : File U → List (File U) → List (File U)
  by_version f [] = f ∷ []
  by_version f (g ∷ gs) =
      let rest = by_version f gs in if leb g.version f.version then f ∷ g ∷ gs else g ∷ rest

  -- `Order("version desc")`
  unfoldable pub newest_first : List (File U) → List (File U)
  unfolding by_version
  newest_first [] = []
  newest_first (f ∷ fs) = by_version f (newest_first fs)

  unfoldable pub lineage_files : U → U → List (File U) → List (File U)
  unfolding newest_first
  lineage_files user root files = newest_first (filter (in_lineage user root) files)

  list_found : U → List (File U) → Option (File U) → Answer U
  unfolding lineage_files
  list_found user files none = refused 404 "file not found"
  list_found user files (some f) = rows (lineage_files user (lineage_root_id f) files)

  unfoldable pub list_file_versions : U → U → List (File U) → Answer U
  unfolding list_found resolve_owned_file
  list_file_versions user id files = list_found user files (resolve_owned_file user id files)

  abbrev pub is_placed : Option U → Option U → Bool
  is_placed none none = true
  is_placed none (some _) = false
  is_placed (some p) folder = is_parent p folder

  -- listFiles, for no folder or one; the order by name is left out
  unfoldable pub list_files : U → Option U → List (File U) → List (File U)
  list_files user folder files =
      filter (λ f. e.beq f.user_id user && (f.is_current && is_placed folder f.folder_id)) files

  -- `Where(...).Update("is_current", false)` on a lineage
  unfoldable pub supersede : U → U → List (File U) → List (File U)
  supersede user root files =
      map (λ f. if in_lineage user root f then record f { is_current = false } else f) files

  -- `Where("id = ?").Update("is_current", true)`
  unfoldable pub make_current : U → List (File U) → List (File U)
  make_current id files =
      map (λ f. if e.beq f.id id then record f { is_current = true } else f) files

  restore_target : U → U → List (File U) → Option (File U) → List (File U) × Answer U
  unfolding supersede make_current
  restore_target user root files none = (files, refused 404 "version not found")
  restore_target user root files (some target) =
      if e.beq (lineage_root_id target) root
      then (
        make_current target.id (supersede user root files),
        row (record target { is_current = true }),
      )
      else (files, refused 400 "version does not belong to this file")

  restore_found : U → U → List (File U) → Option (File U) → List (File U) × Answer U
  unfolding restore_target resolve_owned_file
  restore_found user version_id files none = (files, refused 404 "file not found")
  restore_found user version_id files (some f) =
      restore_target user (lineage_root_id f) files (resolve_owned_file user version_id files)

  unfoldable pub restore_file_version : U → U → U → List (File U) → List (File U) × Answer U
  unfolding restore_found resolve_owned_file
  restore_file_version user id version_id files =
      restore_found user version_id files (resolve_owned_file user id files)

  -- `db.Save`: every column of the row with the argument's primary key
  unfoldable pub save_file : File U → List (File U) → List (File U)
  save_file f files = map (λ g. if e.beq g.id f.id then f else g) files

  place_in : U → U → File U → Option (Folder U) → List (File U) → List (File U) × Answer U
  unfolding save_file
  place_in user p f none files = (files, refused 400 "folder not found")
  place_in user p f (some _) files =
      let moved = record f { folder_id = some p } in (save_file moved files, row moved)

  place_file :
      U → List (Folder U) → File U → ParentField U → List (File U) → List (File U) × Answer U
  unfolding place_in save_file resolve_owned_folder
  place_file user folders f absent files = (save_file f files, row f)
  place_file user folders f to_root files =
      let moved = record f { folder_id = none } in (save_file moved files, row moved)
  place_file user folders f (into p) files =
      place_in user p f (resolve_owned_folder user p folders) files

  rename_file :
      U
      → List (Folder U)
      → Option String
      → ParentField U
      → List (File U)
      → Option (File U)
      → List (File U) × Answer U
  unfolding place_file
  rename_file user folders name folder files none = (files, refused 404 "file not found")
  rename_file user folders none folder files (some f) = place_file user folders f folder files
  rename_file user folders (some n) folder files (some f) =
      if truthy n
      then place_file user folders (record f { name = n }) folder files
      else (files, refused 400 "name cannot be empty")

  -- `folder` is what uuid.Parse makes of the request's folder_id; a text that is no uuid is refused
  -- before anything is saved.
  unfoldable pub update_file :
      U
      → U
      → List (Folder U)
      → Option String
      → ParentField U
      → List (File U)
      → List (File U) × Answer U
  unfolding rename_file resolve_owned_file
  update_file user id folders name folder files =
      rename_file user folders name folder files (resolve_owned_file user id files)

  -- `x IN ids` for the ids of the rows
  abbrev pub is_id_of : List (File U) → U → Bool
  is_id_of files x = any (λ f. e.beq x f.id) files

  -- `Where("file_id IN ? AND user_id = ?").Delete(&models.Share{})`
  unfoldable pub drop_shares :
      {H : Type 0} → U → List (File U) → List (Share U H) → List (Share U H)
  drop_shares user gone shares =
      filter (λ s. not (is_id_of gone s.file_id && e.beq s.user_id user)) shares

  -- `Where("id IN ? AND user_id = ?").Delete(&models.File{})`
  unfoldable pub drop_files : U → List (File U) → List (File U) → List (File U)
  drop_files user gone files = filter (λ f. not (is_id_of gone f.id && e.beq f.user_id user)) files

  delete_lineage :
      {H : Type 0}
      → U
      → List (File U)
      → List (Share U H)
      → Option (File U)
      → List (File U) × List (Share U H) × Answer U
  unfolding lineage_files drop_files drop_shares
  delete_lineage user files shares none = (files, shares, refused 404 "file not found")
  delete_lineage user files shares (some f) =
      let versions = lineage_files user (lineage_root_id f) files in
      (drop_files user versions files, drop_shares user versions shares, no_content)

  -- deleteFile, up to the removal of the objects from the storage
  unfoldable pub delete_file :
      {H : Type 0}
      → U
      → U
      → List (File U)
      → List (Share U H)
      → List (File U) × List (Share U H) × Answer U
  unfolding delete_lineage resolve_owned_file
  delete_file user id files shares =
      delete_lineage user files shares (resolve_owned_file user id files)
