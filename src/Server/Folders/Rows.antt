-- ===== src/Server/Folders/Rows.antt =====
-- The folders' table: what a look-up finds after a row was saved, added or deleted.
use optiflow.Prelude.{
  ◌≡◌, refl, ◌⊎◌, inl, inr, Bool, true, false, ◌&&◌, none, some, List, [], ◌∷◌, ◌++◌, Bool-cases,
  if◌then◌else◌, Eq, arith,
}
use optiflow.Server.Folders.{Folder, resolve_owned_folder, save, delete_row}

module _ {U : Type 0} ⦃e : Eq U⦄ (user c : U) where
  -- Whether a row is the one that a look-up is for.
  abbrev pub is_row : Folder U → Bool
  is_row f = e.beq f.id c && e.beq f.user_id user

  pub save_same :
      (row : Folder U) (db : List (Folder U)) (old : Folder U)
      → is_row row ≡ true
      → resolve_owned_folder user c db ≡ some old
      → resolve_owned_folder user c (save row db) ≡ some row
  unfolding resolve_owned_folder save
  save_same row [] old m h = cc
  save_same row (f ∷ fs) old m h = ground (
    arith,
    m,
    h,
    save_same row fs old m,
    e.beq_iff f.id c,
    e.beq_iff row.id c,
    e.beq_iff f.id row.id,
  )

  save_gone :
      (row : Folder U) (db : List (Folder U))
      → is_row row ≡ false
      → e.beq row.id c ≡ true
      → resolve_owned_folder user c (save row db) ≡ none
  unfolding resolve_owned_folder save
  save_gone row [] m h = refl
  save_gone row (f ∷ fs) m h = ground (
    arith,
    m,
    h,
    save_gone row fs m h,
    e.beq_iff f.id c,
    e.beq_iff row.id c,
    e.beq_iff f.id row.id,
  )

  pub save_other :
      (row : Folder U) (db : List (Folder U))
      → e.beq row.id c ≡ false
      → resolve_owned_folder user c (save row db) ≡ resolve_owned_folder user c db
  unfolding resolve_owned_folder save
  save_other row [] h = refl
  save_other row (f ∷ fs) h =
      ground
        (arith, h, save_other row fs h, e.beq_iff f.id c, e.beq_iff row.id c, e.beq_iff f.id row.id)

  -- A save of another row leaves the row as it was, or hides it.
  pub save_kept :
      (row : Folder U) (db : List (Folder U))
      → is_row row ≡ false
      → (resolve_owned_folder user c (save row db) ≡ none)
        ⊎ (resolve_owned_folder user c (save row db) ≡ resolve_owned_folder user c db)
  save_kept row db m = elim (Bool-cases (e.beq row.id c)) [
    | inl y ↦ inl (save_gone row db m y)
    | inr n ↦ inr (save_other row db n)
  ]

  pub resolve-append :
      (db : List (Folder U)) (f : Folder U)
      → resolve_owned_folder user c (db ++ f ∷ []) ≡ elim (resolve_owned_folder user c db) [
        | none ↦ if is_row f then some f else none
        | some r ↦ some r
      ]
  unfolding resolve_owned_folder
  resolve-append [] f = refl
  resolve-append (r ∷ db) f = ground (arith, resolve-append db f)

  pub delete_gone :
      (u id : U) (db : List (Folder U))
      → (e.beq id c && e.beq u user) ≡ true
      → resolve_owned_folder user c (delete_row u id db) ≡ none
  unfolding resolve_owned_folder delete_row
  delete_gone u id [] m = refl
  delete_gone u id (f ∷ fs) m = ground (
    arith,
    m,
    delete_gone u id fs m,
    e.beq_iff f.id c,
    e.beq_iff id c,
    e.beq_iff f.id id,
    e.beq_iff f.user_id user,
    e.beq_iff u user,
    e.beq_iff f.user_id u,
  )

  pub delete_other :
      (u id : U) (db : List (Folder U))
      → (e.beq id c && e.beq u user) ≡ false
      → resolve_owned_folder user c (delete_row u id db) ≡ resolve_owned_folder user c db
  unfolding resolve_owned_folder delete_row
  delete_other u id [] m = refl
  delete_other u id (f ∷ fs) m = ground (
    arith,
    m,
    delete_other u id fs m,
    e.beq_iff f.id c,
    e.beq_iff id c,
    e.beq_iff f.id id,
    e.beq_iff f.user_id user,
    e.beq_iff u user,
    e.beq_iff f.user_id u,
  )

  pub delete_kept :
      (u id : U) (db : List (Folder U))
      → (resolve_owned_folder user c (delete_row u id db) ≡ none)
        ⊎ (resolve_owned_folder user c (delete_row u id db) ≡ resolve_owned_folder user c db)
  delete_kept u id db = elim (Bool-cases (e.beq id c && e.beq u user)) [
    | inl y ↦ inl (delete_gone u id db y)
    | inr n ↦ inr (delete_other u id db n)
  ]
