-- ===== src/Server/Files/Refinement.antt =====
-- handlers_folder.go: deleteFolder on all tables, and on the folders alone.
use optiflow.Prelude.{
  ℕ, zero, suc, ◌≡◌, refl, ap, ◌∙◌, Option, none, some, List, [], ◌∷◌, ◌++◌, arith, Eq,
}
use optiflow.Server.Folders.{
  Folder, children_of, delete_row, delete_each, delete_from, delete_folder_tree,
}
use optiflow.Server.Files.{File}
use optiflow.Server.Files.Tree.{Db, files_in, delete_contents, delete_children, finish, delete_tree}
use optiflow.Server.Files.Trees.{drop_gone_lem}

module _ {U H : Type 0} ⦃e : Eq U⦄ where
  -- the table of folders that a deletion leaves
  abbrev pub folders_left : Option (Db U H × List (File U)) → Option (List (Folder U))
  folders_left none = none
  folders_left (some r) = some r.0.folders

  child-folders :
      (delete : U → Db U H → Option (Db U H × List (File U)))
      (alone : U → List (Folder U) → Option (List (Folder U))) (cs : List (Folder U))
      (m : Option (Db U H × List (File U))) (n : Option (List (Folder U)))
      → ((db : Db U H)
          → folders_left (delete_children delete cs db) ≡ delete_each alone cs db.folders)
      → folders_left m ≡ n
      → folders_left (elim m [
        | none ↦ none
        | some r ↦ elim (delete_children delete cs r.0) [
          | none ↦ none
          | some s ↦ some (s.0, r.1 ++ s.1)
        ]
      ])
        ≡ elim n [ none ↦ none | some db ↦ delete_each alone cs db ]
  child-folders delete alone cs none n f h = ground (arith, h)
  child-folders delete alone cs (some r) n f h = ground (arith, h, f r.0)

  children-folders :
      (delete : U → Db U H → Option (Db U H × List (File U)))
      (alone : U → List (Folder U) → Option (List (Folder U)))
      → ((id : U) (db : Db U H) → folders_left (delete id db) ≡ alone id db.folders)
      → (cs : List (Folder U)) (db : Db U H)
      → folders_left (delete_children delete cs db) ≡ delete_each alone cs db.folders
  unfolding delete_children delete_each
  children-folders delete alone f [] db = refl
  children-folders delete alone f (c ∷ cs) db =
      child-folders delete alone cs (delete c.id db) (alone c.id db.folders)
        (λ r. children-folders delete alone f cs r) (f c.id db)

  finish-folders :
      (user id : U) (m : Option (Db U H × List (File U)))
      → folders_left (finish user id m) ≡ delete_from user id (folders_left m)
  unfolding delete_contents
  finish-folders user id none = refl
  finish-folders user id (some r) =
      ap (λ d. some (delete_row user id d.folders)) (drop_gone_lem user (files_in user id r.0) r.0)

  -- deleteFolderTree on all tables does to the folders what it does to them alone.
  pub delete_tree-folders :
      (fuel : ℕ) (user id : U) (db : Db U H)
      → folders_left (delete_tree fuel user id db) ≡ delete_folder_tree fuel user id db.folders
  unfolding delete_tree delete_folder_tree
  delete_tree-folders zero user id db = refl
  delete_tree-folders (suc fuel) user id db =
      finish-folders user id _
      ∙ ap (delete_from user id) (
          children-folders (delete_tree fuel user) (delete_folder_tree fuel user)
            (λ c now. delete_tree-folders fuel user c now) (children_of user id db.folders) db)
