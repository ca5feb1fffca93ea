-- ===== src/Server/Folders/Deletion.antt =====
-- handlers_folder.go: what a deletion of one row keeps, deleteFolder keeps.
use optiflow.Prelude.{ℕ, zero, suc, Option, none, some, List, [], ◌∷◌, Eq}
use optiflow.Server.Folders.{
  delete_row, Folder, delete_folder_tree, delete_each, children_of, delete_found, deleted,
  delete_from,
}

module _ {U : Type 0} ⦃e : Eq U⦄ (P : List (Folder U) → Type 0)
    (keeps : (user id : U) (db : List (Folder U)) → P db → P (delete_row user id db)) where
  -- What a deletion leaves, if it has come to an end, has the property.
  abbrev IsLeft : Option (List (Folder U)) → Type 0
  IsLeft none = Unit
  IsLeft (some db) = P db

  after_one :
      (rest : List (Folder U) → Option (List (Folder U))) (m : Option (List (Folder U)))
      → ((db : List (Folder U)) → P db → IsLeft (rest db))
      → IsLeft m
      → IsLeft (elim m [ none ↦ none | some db ↦ rest db ])
  after_one rest none k h = tt
  after_one rest (some db) k h = k db h

  delete_each_keeps :
      (delete : U → List (Folder U) → Option (List (Folder U)))
      → ((id : U) (db : List (Folder U)) → P db → IsLeft (delete id db))
      → (cs db : List (Folder U)) → P db
      → IsLeft (delete_each delete cs db)
  unfolding delete_each
  delete_each_keeps delete keep [] db h = h
  delete_each_keeps delete keep (c ∷ cs) db h =
      after_one (delete_each delete cs) (delete c.id db)
        (λ db' h'. delete_each_keeps delete keep cs db' h') (keep c.id db h)

  delete_from_keeps :
      (user id : U) (m : Option (List (Folder U))) → IsLeft m → IsLeft (delete_from user id m)
  delete_from_keeps user id none h = tt
  delete_from_keeps user id (some db) h = keeps user id db h

  delete_tree_keeps :
      (fuel : ℕ) (user id : U) (db : List (Folder U))
      → P db
      → IsLeft (delete_folder_tree fuel user id db)
  unfolding delete_folder_tree
  delete_tree_keeps zero user id db h = tt
  delete_tree_keeps (suc fuel) user id db h = delete_from_keeps user id _ (
      delete_each_keeps (delete_folder_tree fuel user)
        (λ c db' h'. delete_tree_keeps fuel user c db' h') (children_of user id db) db h)

  deleted_keeps :
      (db : List (Folder U)) (m : Option (List (Folder U))) → IsLeft m → P db → P (deleted db m).0
  unfolding deleted
  deleted_keeps db none h kept = kept
  deleted_keeps db (some db') h kept = h

  pub delete_found_keeps :
      (fuel : ℕ) (user id : U) (db : List (Folder U)) (m : Option (Folder U))
      → P db
      → P (delete_found fuel user id db m).0
  unfolding delete_found
  delete_found_keeps fuel user id db none kept = kept
  delete_found_keeps fuel user id db (some f) kept =
      deleted_keeps db (delete_folder_tree fuel user id db) (delete_tree_keeps fuel user id db kept)
        kept
