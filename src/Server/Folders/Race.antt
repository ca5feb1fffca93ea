-- ===== src/Server/Folders/Race.antt =====
-- handlers_folder.go: updateFolder reads the tree and saves in two steps, with no transaction, so
-- two moves can interleave.
use optiflow.Prelude.{ℕ, zero, suc, ◌≡◌, refl, ap, ◌∙◌, false, none, some, List, Eq, arith}
use optiflow.Server.Folders.{
  Folder, resolve_owned_folder, parent_of, is_descendant, save, update_folder, into, place,
  move_into, move_checked, update_found, saved,
}
use optiflow.Server.Folders.Rows.{save_same, save_other}
use optiflow.Server.Folders.Forest.{found-is_row}
use optiflow.Server.Folders.Walk.{parent}

module _ {U : Type 0} ⦃e : Eq U⦄ where
  -- A save of the row that a request has read, with the folder it has checked.
  abbrev pub saved_under : Folder U → U → List (Folder U) → List (Folder U)
  saved_under row p db = save (record row { parent_id = some p }) db

  -- the loop on two folders that are each other's parent, asked about a third
  circles :
      (db : List (Folder U)) (user a b c : U)
      → parent db user a ≡ some b
      → parent db user b ≡ some a
      → e.beq a c ≡ false
      → e.beq b c ≡ false
      → (fuel : ℕ)
      → (is_descendant fuel db user c a ≡ none) × (is_descendant fuel db user c b ≡ none)
  unfolding is_descendant
  circles db user a b c ha hb na nb zero = (refl, refl)
  circles db user a b c ha hb na nb (suc fuel) =
      let (x, y) = circles db user a b c ha hb na nb fuel in
      (ground (arith, ha, na, y), ground (arith, hb, nb, x))

  module _ (db : List (Folder U)) (user a b : U) (ra rb : Folder U)
      (found_a : resolve_owned_folder user a db ≡ some ra)
      (found_b : resolve_owned_folder user b db ≡ some rb) (apart : e.beq a b ≡ false) where
    under_a :
        (p : U)
        → resolve_owned_folder user a (saved_under ra p db)
          ≡ some (record ra { parent_id = some p })
    under_a p =
        save_same user a (record ra { parent_id = some p }) db ra
          (ground (
            arith,
            found-is_row user a db ra found_a,
            e.beq_iff ra.id a,
            e.beq_iff ra.user_id user,
          ))
          found_a

    still_b : (p : U) → resolve_owned_folder user b (saved_under ra p db) ≡ some rb
    still_b p =
        save_other user b (record ra { parent_id = some p }) db
          (ground
            (arith, apart, found-is_row user a db ra found_a, e.beq_iff ra.id b, e.beq_iff a b))
        ∙ found_b

    -- the check of a move of a into b, where b has no parent
    checked : rb.parent_id ≡ none → is_descendant 2 db user a b ≡ some false
    unfolding is_descendant
    checked top = ground (arith, found_b, top, apart, e.beq_iff a b, e.beq_iff b a)

  update_alone :
      (db : List (Folder U)) (user a b : U) (ra rb : Folder U)
      → resolve_owned_folder user a db ≡ some ra
      → resolve_owned_folder user b db ≡ some rb
      → e.beq a b ≡ false
      → rb.parent_id ≡ none
      → update_folder 2 user a "" (into b) db ≡ (saved_under ra b db, saved)
  unfolding update_folder update_found place move_into move_checked
  update_alone db user a b ra rb found_a found_b apart top = ground (
    arith,
    found_a,
    found_b,
    checked db user a b ra rb found_a found_b apart top,
    found-is_row user a db ra found_a,
  )

  cycle_a :
      (db : List (Folder U)) (user a b : U) (ra rb : Folder U)
      → resolve_owned_folder user a db ≡ some ra
      → resolve_owned_folder user b db ≡ some rb
      → e.beq a b ≡ false
      → (parent (saved_under rb a (saved_under ra b db)) user a ≡ some b)
        × (parent (saved_under rb a (saved_under ra b db)) user b ≡ some a)
  cycle_a db user a b ra rb found_a found_b apart =
      let kept = still_b db user a b ra rb found_a found_b apart b in
      let moved = under_a db user a b ra rb found_a found_b apart b in
      let other : e.beq b a ≡ false = ground (arith, apart, e.beq_iff a b, e.beq_iff b a) in
      (
        ap parent_of (
            still_b (saved_under ra b db) user b a rb (record ra { parent_id = some b }) kept moved
              other a),
        ap parent_of (
            under_a (saved_under ra b db) user b a rb (record ra { parent_id = some b }) kept moved
              other a),
      )

  -- Two folders of a user at the top, and the moves of each into the other: either move alone is
  -- carried out. But if both requests read the tree before either saves, the two saves make a
  -- cycle, and the check of any later move of a third folder into one of the two never ends.
  pub moves_race :
      (db : List (Folder U)) (user a b c : U) (ra rb : Folder U)
      → resolve_owned_folder user a db ≡ some ra
      → resolve_owned_folder user b db ≡ some rb
      → ra.parent_id ≡ none
      → rb.parent_id ≡ none
      → e.beq a b ≡ false
      → e.beq a c ≡ false
      → e.beq b c ≡ false
      → (update_folder 2 user a "" (into b) db ≡ (saved_under ra b db, saved))
        × (update_folder 2 user b "" (into a) db ≡ (saved_under rb a db, saved))
        × ((fuel : ℕ) → is_descendant fuel (saved_under rb a (saved_under ra b db)) user c a ≡ none)
  moves_race db user a b c ra rb found_a found_b top_a top_b apart na nb =
      let (x, y) = cycle_a db user a b ra rb found_a found_b apart in
      (
        update_alone db user a b ra rb found_a found_b apart top_b,
        update_alone db user b a rb ra found_b found_a
            (ground (arith, apart, e.beq_iff a b, e.beq_iff b a)) top_a,
        λ fuel. (circles (saved_under rb a (saved_under ra b db)) user a b c x y na nb fuel).0,
      )
