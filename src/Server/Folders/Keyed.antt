-- ===== src/Server/Folders/Keyed.antt =====
-- handlers_folder.go: no request makes two rows with one id.
use optiflow.Prelude.{
  ℕ, ◌≡◌, refl, sym, ap, ◌∙◌, subst, ◌⊎◌, inl, inr, Bool, true, false, Option, none, some, List, [],
  ◌∷◌, ◌++◌, String, arith, if_lem, if◌then◌else◌, Eq, truthy,
}
use optiflow.Server.Folders.{
  Folder, ParentField, absent, to_root, into, bad_request, named, resolve_owned_folder, save,
  delete_row, place, move_into, move_checked, is_descendant, update_found, update_folder,
  create_folder, create_named, create_under, create_in, delete_folder,
}
use optiflow.Server.Folders.Rows.{save_same, save_other, resolve-append, delete_other}
use optiflow.Server.Folders.Forest.{found-is_row}
use optiflow.Server.Folders.Creation.{IsFresh, fresh-none}
use optiflow.Server.Folders.Distinct.{
  IsDistinct, append-IsDistinct, save-IsDistinct, delete_row-IsDistinct,
}
use optiflow.Server.Folders.Deletion.{delete_found_keeps}
use optiflow.Server.Folders.Handlers.{
  Request, creating, updating, deleting, handle, IsPossible, named_parts,
}
use optiflow.Server.Members.{IsRow, filter-IsRow}

module _ {U : Type 0} ⦃e : Eq U⦄ where
  -- No id is used twice, and a look-up for a row's own user and id finds the row.
  pub record IsKeyed (db : List (Folder U)) : Type 0 where
    pub distinct : IsDistinct db
    pub finds : (r : Folder U) → IsRow r db → resolve_owned_folder r.user_id r.id db ≡ some r

  beq_comm : (a b : U) → e.beq a b ≡ e.beq b a
  beq_comm a b = ground (arith, e.beq_iff a b, e.beq_iff b a)

  IsRow-append :
      (r x : Folder U) (db : List (Folder U)) → IsRow r (db ++ x ∷ []) → IsRow r db ⊎ (r ≡ x)
  IsRow-append r x [] (inl same) = inr same
  IsRow-append r x [] (inr h) = absurd h
  IsRow-append r x (s ∷ ss) (inl same) = inl (inl same)
  IsRow-append r x (s ∷ ss) (inr h) = elim (IsRow-append r x ss h) [
    | inl k ↦ inl (inr k)
    | inr same ↦ inr same
  ]

  append-IsKeyed :
      (db : List (Folder U)) (new : Folder U)
      → IsFresh new.id db
      → IsKeyed db
      → IsKeyed (db ++ new ∷ [])
  append-IsKeyed db new fresh keyed = record {
    distinct = append-IsDistinct db new fresh keyed.distinct;
    finds = λ r h. elim (IsRow-append r new db h) [
      | inl k ↦ resolve-append r.user_id r.id db new ∙ ground (arith, keyed.finds r k)
      | inr same ↦
          subst (λ f. resolve_owned_folder f.user_id f.id (db ++ new ∷ []) ≡ some f) (sym same)
            (resolve-append new.user_id new.id db new
              ∙ ground (
                arith,
                fresh-none new.id new.user_id db fresh,
                e.beq_iff new.id new.id,
                e.beq_iff new.user_id new.user_id,
              ))
    ];
  }

  saved_at :
      (r row f : Folder U) (fs gs : List (Folder U)) (b : Bool)
      → e.beq f.id row.id ≡ b
      → (IsRow r gs → (r ≡ row) ⊎ (IsRow r fs × (e.beq r.id row.id ≡ false)))
      → IsRow r ((if b then row else f) ∷ gs)
      → (r ≡ row) ⊎ (IsRow r (f ∷ fs) × (e.beq r.id row.id ≡ false))
  saved_at r row f fs gs true q ih (inl same) = inl same
  saved_at r row f fs gs false q ih (inl same) =
      inr (inl same, ap (λ g. e.beq g.id row.id) same ∙ q)
  saved_at r row f fs gs b q ih (inr h) = elim (ih h) [
    | inl same ↦ inl same
    | inr (k, ne) ↦ inr (inr k, ne)
  ]

  save-IsRow :
      (r row : Folder U) (db : List (Folder U))
      → IsRow r (save row db)
      → (r ≡ row) ⊎ (IsRow r db × (e.beq r.id row.id ≡ false))
  unfolding save
  save-IsRow r row [] h = absurd h
  save-IsRow r row (f ∷ fs) h =
      saved_at r row f fs (save row fs) (e.beq f.id row.id) refl (save-IsRow r row fs) h

  save-IsKeyed :
      (user id : U) (db : List (Folder U)) (old row : Folder U)
      → resolve_owned_folder user id db ≡ some old
      → row.id ≡ old.id
      → row.user_id ≡ old.user_id
      → IsKeyed db
      → IsKeyed (save row db)
  save-IsKeyed user id db old row found same_id same_user keyed =
      let (i, u) = found-is_row user id db old found in
      let moved : resolve_owned_folder row.user_id row.id db ≡ some old =
        subst (λ v. resolve_owned_folder v row.id db ≡ some old) (sym (same_user ∙ u))
          (subst (λ c. resolve_owned_folder user c db ≡ some old) (sym (same_id ∙ i)) found) in
      record {
        distinct = save-IsDistinct row db keyed.distinct;
        finds = λ r h. elim (save-IsRow r row db h) [
          | inl same ↦
              subst (λ f. resolve_owned_folder f.user_id f.id (save row db) ≡ some f) (sym same)
                (save_same row.user_id row.id row db old
                  (ground (arith, e.beq_iff row.id row.id, e.beq_iff row.user_id row.user_id))
                  moved)
          | inr (k, ne) ↦
              save_other r.user_id r.id row db (beq_comm row.id r.id ∙ ne) ∙ keyed.finds r k
        ];
      }

  delete_row-IsKeyed :
      (user id : U) (db : List (Folder U)) → IsKeyed db → IsKeyed (delete_row user id db)
  unfolding delete_row
  delete_row-IsKeyed user id db keyed = record {
    distinct = delete_row-IsDistinct user id db keyed.distinct;
    finds = λ r h.
        let (row, t) = filter-IsRow _ r db h in
        delete_other r.user_id r.id user id db
          (ground (arith, t, beq_comm id r.id, beq_comm user r.user_id))
        ∙ keyed.finds r row;
  }

  module _ (user id : U) (db : List (Folder U)) (row row' : Folder U)
      (found : resolve_owned_folder user id db ≡ some row) (same_id : row'.id ≡ row.id)
      (same_user : row'.user_id ≡ row.user_id) (keyed : IsKeyed db) where
    saved-IsKeyed : (parent : Option U) → IsKeyed (save (record row' { parent_id = parent }) db)
    saved-IsKeyed parent = save-IsKeyed user id db row _ found same_id same_user keyed

    move_checked-IsKeyed : (p : U) (m : Option Bool) → IsKeyed (move_checked row' p db m).0
    unfolding move_checked
    move_checked-IsKeyed p none = keyed
    move_checked-IsKeyed p (some true) = keyed
    move_checked-IsKeyed p (some false) = saved-IsKeyed (some p)

    move_into-IsKeyed :
        (fuel : ℕ) (p : U) (m : Option (Folder U)) → IsKeyed (move_into fuel user row' p db m).0
    unfolding move_into
    move_into-IsKeyed fuel p none = keyed
    move_into-IsKeyed fuel p (some f) =
        move_checked-IsKeyed p (is_descendant fuel db user row'.id p)

    place-IsKeyed : (fuel : ℕ) (parent : ParentField U) → IsKeyed (place fuel user row' parent db).0
    unfolding place
    place-IsKeyed fuel absent = saved-IsKeyed row'.parent_id
    place-IsKeyed fuel to_root = saved-IsKeyed none
    place-IsKeyed fuel (into p) = move_into-IsKeyed fuel p (resolve_owned_folder user p db)

  update_found-IsKeyed :
      (fuel : ℕ) (user id : U) (name : String) (parent : ParentField U) (db : List (Folder U))
      (m : Option (Folder U))
      → resolve_owned_folder user id db ≡ m
      → IsKeyed db
      → IsKeyed (update_found fuel user m name parent db).0
  unfolding update_found
  update_found-IsKeyed fuel user id name parent db none h keyed = keyed
  update_found-IsKeyed fuel user id name parent db (some row) h keyed =
      let (i, u, k) = named_parts name row in
      place-IsKeyed user id db row (named name row) h i u keyed fuel parent

  create_under-IsKeyed :
      (user id : U) (name : String) (p : U) (db : List (Folder U)) (m : Option (Folder U))
      → IsFresh id db
      → IsKeyed db
      → IsKeyed (create_under user id name p db m).0
  unfolding create_under create_in
  create_under-IsKeyed user id name p db none fresh keyed = keyed
  create_under-IsKeyed user id name p db (some f) fresh keyed = append-IsKeyed db _ fresh keyed

  create_named-IsKeyed :
      (user id : U) (name : String) (parent : Option U) (db : List (Folder U))
      → IsFresh id db
      → IsKeyed db
      → IsKeyed (create_named user id name parent db).0
  unfolding create_named create_in
  create_named-IsKeyed user id name none db fresh keyed = append-IsKeyed db _ fresh keyed
  create_named-IsKeyed user id name (some p) db fresh keyed =
      create_under-IsKeyed user id name p db (resolve_owned_folder user p db) fresh keyed

  pub handle-IsKeyed :
      (fuel : ℕ) (r : Request U) (db : List (Folder U))
      → IsPossible r db
      → IsKeyed db
      → IsKeyed (handle fuel r db).0
  unfolding handle create_folder update_folder delete_folder
  handle-IsKeyed fuel (creating user id name parent) db fresh keyed =
      if_lem (λ r. IsKeyed r.0) (truthy name) (create_named user id name parent db)
        (db, bad_request "name is required")
        (λ q. create_named-IsKeyed user id name parent db fresh keyed) (λ q. keyed)
  handle-IsKeyed fuel (updating user id name parent) db ok keyed =
      update_found-IsKeyed fuel user id name parent db (resolve_owned_folder user id db) refl keyed
  handle-IsKeyed fuel (deleting user id) db ok keyed =
      delete_found_keeps IsKeyed delete_row-IsKeyed fuel user id db
        (resolve_owned_folder user id db) keyed
