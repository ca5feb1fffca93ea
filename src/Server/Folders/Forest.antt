-- ===== src/Server/Folders/Forest.antt =====
-- handlers_folder.go: the folders of every user form a forest, and stay one.
use optiflow.Prelude.{
  ◌≡◌, ap, sym, ◌∙◌, subst, ◌⊎◌, inl, inr, true, false, none, some, List, [], ◌∷◌, Bool-cases, Eq,
  arith,
}
use optiflow.Server.Folders.{Folder, resolve_owned_folder, parent_of, save, delete_row}
use optiflow.Server.Folders.Walk.{parent, Below, Rooted}
use optiflow.Server.Folders.Rows.{is_row, save_same, save_kept, delete_kept}

module _ {U : Type 0} ⦃e : Eq U⦄ where
  -- From every folder of every user the way up comes to an end: there is no cycle.
  abbrev pub IsForest : List (Folder U) → Type 0
  IsForest db = (user c : U) → Rooted db user c

  -- A change of the table after which a folder has the parent that it had, or none.
  abbrev Keeps : List (Folder U) → List (Folder U) → U → U → Type 0
  Keeps db db' user c = (parent db' user c ≡ none) ⊎ (parent db' user c ≡ parent db user c)

  module _ (db db' : List (Folder U)) (user : U) where
    kept_up :
        (c p : U)
        → Keeps db db' user c
        → parent db user c ≡ some p
        → Rooted db' user p
        → Rooted db' user c
    kept_up c p (inl gone) h r = Rooted.top gone
    kept_up c p (inr same) h r = Rooted.up (same ∙ h) r

    kept_top : (c : U) → Keeps db db' user c → parent db user c ≡ none → Rooted db' user c
    kept_top c (inl gone) h = Rooted.top gone
    kept_top c (inr same) h = Rooted.top (same ∙ h)

    Rooted-kept : ((c : U) → Keeps db db' user c) → {c : U} → Rooted db user c → Rooted db' user c
    Rooted-kept k (Rooted.top {c} h) = kept_top c (k c) h
    Rooted-kept k (Rooted.up {c} {p} h r) = kept_up c p (k c) h (Rooted-kept k r)

    -- A change of one folder's parent alone.
    module _ (id : U) (others : (c : U) → e.beq c id ≡ false → Keeps db db' user c) where
      apart_ne : (c : U) → ¬ Below db user id c → e.beq c id ≡ false
      apart_ne c apart = elim (Bool-cases (e.beq c id)) [
        | inl same ↦
            absurd (apart (subst (Below db user id) (sym ((e.beq_iff c id).0 same)) Below.here))
        | inr ne ↦ ne
      ]

      Rooted-apart : {c : U} → Rooted db user c → ¬ Below db user id c → Rooted db' user c
      Rooted-apart (Rooted.top {c} h) apart = kept_top c (others c (apart_ne c apart)) h
      Rooted-apart (Rooted.up {c} {p} h r) apart =
          kept_up c p (others c (apart_ne c apart)) h
            (Rooted-apart r (λ below. apart (Below.up h below)))

      Rooted-moved : Rooted db' user id → {c : U} → Rooted db user c → Rooted db' user c
      Rooted-moved r (Rooted.top {c} h) = elim (Bool-cases (e.beq c id)) [
        | inl same ↦ subst (Rooted db' user) (sym ((e.beq_iff c id).0 same)) r
        | inr ne ↦ kept_top c (others c ne) h
      ]
      Rooted-moved r (Rooted.up {c} {p} h s) =
          let rest = Rooted-moved r s in
          elim (Bool-cases (e.beq c id)) [
            | inl same ↦ subst (Rooted db' user) (sym ((e.beq_iff c id).0 same)) r
            | inr ne ↦ kept_up c p (others c ne) h rest
          ]

  pub found-Keeps :
      (db db' : List (Folder U)) (user c : U)
      → (resolve_owned_folder user c db' ≡ none)
        ⊎ (resolve_owned_folder user c db' ≡ resolve_owned_folder user c db)
      → Keeps db db' user c
  found-Keeps db db' user c (inl gone) = inl (ap parent_of gone)
  found-Keeps db db' user c (inr same) = inr (ap parent_of same)

  pub delete_row-IsForest :
      (u id : U) (db : List (Folder U)) → IsForest db → IsForest (delete_row u id db)
  delete_row-IsForest u id db forest user c =
      Rooted-kept db (delete_row u id db) user
        (λ d. found-Keeps db (delete_row u id db) user d (delete_kept user d u id db))
        (forest user c)

  pub found-is_row :
      (user id : U) (db : List (Folder U)) (row : Folder U)
      → resolve_owned_folder user id db ≡ some row
      → (row.id ≡ id) × (row.user_id ≡ user)
  unfolding resolve_owned_folder
  found-is_row user id [] row h = cc
  found-is_row user id (f ∷ fs) row h =
      ground (arith, h, found-is_row user id fs row, e.beq_iff f.id id, e.beq_iff f.user_id user)

  -- A row of the table is saved with another name or parent.
  module _ (user id : U) (db : List (Folder U)) (row row' : Folder U)
      (found : resolve_owned_folder user id db ≡ some row) (same_id : row'.id ≡ row.id)
      (same_user : row'.user_id ≡ row.user_id) where
    is_row-found : (v c : U) → is_row v c row' ≡ true → (v ≡ user) × (c ≡ id)
    is_row-found v c m = ground (
      arith,
      m,
      found-is_row user id db row found,
      same_id,
      same_user,
      e.beq_iff row'.id c,
      e.beq_iff row'.user_id v,
    )

    saved_parent : (v c : U) → is_row v c row' ≡ true → parent (save row' db) v c ≡ row'.parent_id
    saved_parent v c m =
        let (sv, sc) = is_row-found v c m in
        ap parent_of (save_same v c row' db row m (ground (arith, sv, sc, found)))

    Keeps-saved : (v c : U) → is_row v c row' ≡ false → Keeps db (save row' db) v c
    Keeps-saved v c m = found-Keeps db (save row' db) v c (save_kept v c row' db m)

    Keeps-itself :
        (v c : U)
        → is_row v c row' ≡ true
        → (row'.parent_id ≡ none) ⊎ (row'.parent_id ≡ row.parent_id)
        → Keeps db (save row' db) v c
    Keeps-itself v c m (inl gone) = inl (saved_parent v c m ∙ gone)
    Keeps-itself v c m (inr same) =
        let (sv, sc) = is_row-found v c m in
        let before : parent db v c ≡ row.parent_id = ground (arith, sv, sc, found) in
        inr (saved_parent v c m ∙ same ∙ sym before)

    -- with the parent that it had, or none
    pub save-IsForest :
        (row'.parent_id ≡ none) ⊎ (row'.parent_id ≡ row.parent_id)
        → IsForest db
        → IsForest (save row' db)
    save-IsForest k forest v c =
        Rooted-kept db (save row' db) v
          (λ d. elim (Bool-cases (is_row v d row')) [
            | inl m ↦ Keeps-itself v d m k
            | inr m ↦ Keeps-saved v d m
          ])
          (forest v c)

    row_of_user : is_row user id row' ≡ true
    row_of_user = ground (
      arith,
      found-is_row user id db row found,
      same_id,
      same_user,
      e.beq_iff row'.id id,
      e.beq_iff row'.user_id user,
    )

    not_row : (v c : U) → e.beq c id ≡ false → is_row v c row' ≡ false
    not_row v c ne = elim (Bool-cases (is_row v c row')) [
      | inl m ↦ absurd (ground (arith, ne, is_row-found v c m, e.beq_iff c id))
      | inr m ↦ m
    ]

    not_user : (v c : U) → e.beq v user ≡ false → is_row v c row' ≡ false
    not_user v c ne = elim (Bool-cases (is_row v c row')) [
      | inl m ↦ absurd (ground (arith, ne, is_row-found v c m, e.beq_iff v user))
      | inr m ↦ m
    ]

    others_kept : (c : U) → e.beq c id ≡ false → Keeps db (save row' db) user c
    others_kept c ne = Keeps-saved user c (not_row user c ne)

    -- under a folder that does not lie below it
    pub move-IsForest :
        (p : U)
        → row'.parent_id ≡ some p
        → ¬ Below db user id p
        → IsForest db
        → IsForest (save row' db)
    move-IsForest p into apart forest v c = elim (Bool-cases (e.beq v user)) [
      | inl same ↦
          subst (λ w. Rooted (save row' db) w c) (sym ((e.beq_iff v user).0 same))
            (Rooted-moved db (save row' db) user id others_kept
              (Rooted.up (saved_parent user id row_of_user ∙ into)
                (Rooted-apart db (save row' db) user id others_kept (forest user p) apart))
              (forest user c))
      | inr ne ↦
          Rooted-kept db (save row' db) v (λ d. Keeps-saved v d (not_user v d ne)) (forest v c)
    ]
