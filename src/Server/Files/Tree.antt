-- ===== src/Server/Files/Tree.antt =====
-- backend/cmd/api-svc/handlers_folder.go, deleteFolder with the files and the shares, and what both
-- deletions take out of the storage.
use optiflow.Prelude.{
  ℕ, zero, suc, ◌&&◌, Option, none, some, List, [], ◌∷◌, ◌++◌, String, filter, Eq,
}
use optiflow.Server.Folders.{
  Folder, children_of, delete_row, is_parent, resolve_owned_folder, Response, not_found, hanging,
  no_content,
}
use optiflow.Server.Shares.{Share}
use optiflow.Server.Files.{File, lineage_root_id, lineage_files, drop_files, drop_shares}

-- The tables that a deletion of a folder reads and writes.
pub record Db (U H : Type 0) : Type 0 where
  pub folders : List (Folder U)
  pub files : List (File U)
  pub shares : List (Share U H)

-- cleanupFileObjects: the keys that are removed; `hls_of` is what ListObjects gives for the prefix
-- hls/{id}/ of a video.
unfoldable pub cleanup_keys : {U : Type 0} → (U → Option (List String)) → File U → List String
cleanup_keys hls_of f =
    f.storage_key
    ∷ (elim f.thumbnail_key [ none ↦ [] | some key ↦ key ∷ [] ] ++ elim f.playlist_key [
      | none ↦ []
      | some _ ↦ elim (hls_of f.id) [ none ↦ [] | some keys ↦ keys ]
    ])

module _ {U : Type 0} ⦃e : Eq U⦄ where
  -- `Where("user_id = ? AND folder_id = ? AND is_current = ?").Find`
  unfoldable pub current_in : U → U → List (File U) → List (File U)
  current_in user folder files =
      filter (λ f. e.beq f.user_id user && (is_parent folder f.folder_id && f.is_current)) files

  unfoldable pub lineages_of : U → List (File U) → List (File U) → List (File U)
  lineages_of user files [] = []
  lineages_of user files (f ∷ fs) =
      lineage_files user (lineage_root_id f) files ++ lineages_of user files fs

module _ {U H : Type 0} ⦃e : Eq U⦄ where
  -- `if len(fileIDs) > 0`
  unfoldable pub drop_gone : U → List (File U) → Db U H → Db U H
  unfolding drop_files drop_shares
  drop_gone user [] db = db
  drop_gone user (f ∷ fs) db = record db {
    files = drop_files user (f ∷ fs) db.files;
    shares = drop_shares user (f ∷ fs) db.shares;
  }

  unfoldable pub files_in : U → U → Db U H → List (File U)
  unfolding lineages_of current_in
  files_in user id db = lineages_of user db.files (current_in user id db.files)

  abbrev pub drop_folder : U → U → Db U H → Db U H
  drop_folder user id db = record db { folders = delete_row user id db.folders }

  -- the part of deleteFolderTree after the loop
  unfoldable pub delete_contents : U → U → Db U H × List (File U) → Db U H × List (File U)
  unfolding drop_gone files_in
  delete_contents user id (db, deleted) =
      let gone = files_in user id db in
      (drop_folder user id (drop_gone user gone db), deleted ++ gone)

  unfoldable pub delete_children :
      (U → Db U H → Option (Db U H × List (File U)))
      → List (Folder U)
      → Db U H
      → Option (Db U H × List (File U))
  delete_children delete [] db = some (db, [])
  delete_children delete (c ∷ cs) db = elim (delete c.id db) [
    | none ↦ none
    | some r ↦ elim (delete_children delete cs r.0) [
      | none ↦ none
      | some s ↦ some (s.0, r.1 ++ s.1)
    ]
  ]

  abbrev pub finish : U → U → Option (Db U H × List (File U)) → Option (Db U H × List (File U))
  finish user id none = none
  finish user id (some r) = some (delete_contents user id r)

  -- deleteFolderTree, on fuel for the depth of the tree
  unfoldable pub delete_tree : ℕ → U → U → Db U H → Option (Db U H × List (File U))
  unfolding delete_children children_of delete_contents
  delete_tree zero user id db = none
  delete_tree (suc fuel) user id db =
      finish user id (delete_children (delete_tree fuel user) (children_of user id db.folders) db)

  unfoldable pub answered :
      Db U H → Option (Db U H × List (File U)) → Db U H × List (File U) × Response
  answered db none = (db, [], hanging)
  answered db (some r) = (r.0, r.1, no_content)

  unfoldable pub delete_found_files :
      ℕ → U → U → Db U H → Option (Folder U) → Db U H × List (File U) × Response
  unfolding answered delete_tree
  delete_found_files fuel user id db none = (db, [], not_found "folder not found")
  delete_found_files fuel user id db (some _) = answered db (delete_tree fuel user id db)

  -- deleteFolder, with the rows whose objects are removed from the storage afterwards
  unfoldable pub delete_folder_files : ℕ → U → U → Db U H → Db U H × List (File U) × Response
  unfolding delete_found_files resolve_owned_folder
  delete_folder_files fuel user id db =
      delete_found_files fuel user id db (resolve_owned_folder user id db.folders)
