-- ===== src/Server/Folders/Handlers.antt =====
-- handlers_folder.go: every handler keeps the folders a forest, and therefore every handler
-- answers.
use optiflow.Prelude.{
  ℕ, ◌≡◌, refl, sym, ◌∙◌, subst, inl, inr, Bool, true, false, Option, none, some, List, String,
  truthy, if◌then◌else◌, Eq, arith,
}
use optiflow.Server.Folders.{
  Folder, Response, bad_request, resolve_owned_folder, is_descendant, ParentField, absent, to_root,
  into, named, update_folder, create_folder, delete_folder, place, move_into, move_checked,
  create_named, create_under, update_found,
}
use optiflow.Server.Folders.Walk.{parent, Below, decides}
use optiflow.Server.Folders.Forest.{
  IsForest, delete_row-IsForest, save-IsForest, move-IsForest, found-is_row,
}
use optiflow.Server.Folders.Deletion.{delete_found_keeps}
use optiflow.Server.Folders.Creation.{IsFresh, append-IsForest, found_ne}

-- A request that reaches the table.
pub data Request (U : Type 0) : Type 0 where
  creating : (user id : U) → String → Option U → Request U
  updating : (user id : U) → String → ParentField U → Request U
  deleting : (user id : U) → Request U

module _ {U : Type 0} ⦃e : Eq U⦄ where
  unfoldable pub handle : ℕ → Request U → List (Folder U) → List (Folder U) × Response
  handle fuel (creating user id name parent) db = create_folder user id name parent db
  handle fuel (updating user id name parent) db = update_folder fuel user id name parent db
  handle fuel (deleting user id) db = delete_folder fuel user id db

  -- The id that the database makes up for a new row is not in use.
  abbrev pub IsPossible : Request U → List (Folder U) → Type 0
  IsPossible (creating user id name parent) db = IsFresh id db
  IsPossible _ db = Unit

  pub named_parts :
      (name : String) (row : Folder U)
      → ((named name row).id ≡ row.id)
        × ((named name row).user_id ≡ row.user_id)
        × ((named name row).parent_id ≡ row.parent_id)
  named_parts name row = ground arith

  if-IsForest :
      (b : Bool) (x y : List (Folder U) × Response)
      → IsForest x.0
      → IsForest y.0
      → IsForest (if b then x else y).0
  if-IsForest true x y h k = h
  if-IsForest false x y h k = k

  create_under-IsForest :
      (user id : U) (name : String) (p : U) (db : List (Folder U)) (m : Option (Folder U))
      → resolve_owned_folder user p db ≡ m
      → IsFresh id db
      → IsForest db
      → IsForest (create_under user id name p db m).0
  unfolding create_under
  create_under-IsForest user id name p db none h fresh forest = forest
  create_under-IsForest user id name p db (some f) h fresh forest =
      append-IsForest db _ fresh
        (λ q k.
          subst (λ r. e.beq id r ≡ false) (ground (arith, k)) (found_ne user id p db f fresh h))
        forest

  create_named-IsForest :
      (user id : U) (name : String) (parent : Option U) (db : List (Folder U))
      → IsFresh id db
      → IsForest db
      → IsForest (create_named user id name parent db).0
  unfolding create_named
  create_named-IsForest user id name none db fresh forest =
      append-IsForest db _ fresh (λ p h. cc) forest
  create_named-IsForest user id name (some p) db fresh forest =
      create_under-IsForest user id name p db (resolve_owned_folder user p db) refl fresh forest

  module _ (fuel : ℕ) (user id : U) (db : List (Folder U)) (row row' : Folder U)
      (found : resolve_owned_folder user id db ≡ some row) (forest : IsForest db)
      (same_id : row'.id ≡ row.id) (same_user : row'.user_id ≡ row.user_id)
      (same_parent : row'.parent_id ≡ row.parent_id) where
    not-Below : (p : U) → is_descendant fuel db user row'.id p ≡ some false → ¬ Below db user id p
    not-Below p h b =
        let here : row'.id ≡ id = same_id ∙ (found-is_row user id db row found).0 in
        let (_, from) = decides db user row'.id fuel p false h in
        cc (from (subst (λ c. Below db user c p) (sym here) b))

    move_checked-IsForest :
        (p : U) (m : Option Bool)
        → is_descendant fuel db user row'.id p ≡ m
        → IsForest (move_checked row' p db m).0
    unfolding move_checked
    move_checked-IsForest p none h = forest
    move_checked-IsForest p (some true) h = forest
    move_checked-IsForest p (some false) h =
        move-IsForest user id db row (record row' { parent_id = some p }) found same_id same_user p
          refl (not-Below p h) forest

    move_into-IsForest :
        (p : U) (m : Option (Folder U)) → IsForest (move_into fuel user row' p db m).0
    unfolding move_into
    move_into-IsForest p none = forest
    move_into-IsForest p (some f) =
        move_checked-IsForest p (is_descendant fuel db user row'.id p) refl

    place-IsForest : (parent : ParentField U) → IsForest (place fuel user row' parent db).0
    unfolding place
    place-IsForest absent =
        save-IsForest user id db row row' found same_id same_user (inr same_parent) forest
    place-IsForest to_root =
        save-IsForest user id db row (record row' { parent_id = none }) found same_id same_user
          (inl refl) forest
    place-IsForest (into p) = move_into-IsForest p (resolve_owned_folder user p db)

  update_found-IsForest :
      (fuel : ℕ) (user id : U) (name : String) (parent : ParentField U) (db : List (Folder U))
      (m : Option (Folder U))
      → resolve_owned_folder user id db ≡ m
      → IsForest db
      → IsForest (update_found fuel user m name parent db).0
  unfolding update_found
  update_found-IsForest fuel user id name parent db none h forest = forest
  update_found-IsForest fuel user id name parent db (some row) h forest =
      let (i, u, k) = named_parts name row in
      place-IsForest fuel user id db row (named name row) h forest i u k parent

  -- Whatever a request does to the table, whichever user makes it and however far the loops of the
  -- handler get: if the folders of every user form a forest, they still do, so that no move makes a
  -- cycle.
  pub handle-IsForest :
      (fuel : ℕ) (r : Request U) (db : List (Folder U))
      → IsPossible r db
      → IsForest db
      → IsForest (handle fuel r db).0
  unfolding handle create_folder update_folder delete_folder
  handle-IsForest fuel (creating user id name parent) db fresh forest =
      if-IsForest (truthy name) (create_named user id name parent db)
        (db, bad_request "name is required")
        (create_named-IsForest user id name parent db fresh forest) forest
  handle-IsForest fuel (updating user id name parent) db ok forest =
      update_found-IsForest fuel user id name parent db (resolve_owned_folder user id db) refl
        forest
  handle-IsForest fuel (deleting user id) db ok forest =
      delete_found_keeps IsForest delete_row-IsForest fuel user id db
        (resolve_owned_folder user id db) forest
