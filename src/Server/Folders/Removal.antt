-- ===== src/Server/Folders/Removal.antt =====
-- handlers_folder.go: what deleteFolderTree takes out of the table of folders.
use optiflow.Prelude.{
  ℕ, zero, suc, ◌≤◌, ◌≡◌, refl, sym, ap, subst, ◌⊎◌, inl, inr, Bool, true, false, not, ◌&&◌, ◌||◌,
  Option, none, some, List, [], ◌∷◌, Bool-cases, All, arith, Eq,
}
use optiflow.Server.Folders.{
  Folder, is_parent, delete_row, children_of, delete_each, delete_folder_tree, delete_folder,
  delete_found, deleted, resolve_owned_folder, no_content,
}
use optiflow.Server.Members.{IsRow, filter-IsRow, IsRow-filter, All-IsRow}

module _ {U : Type 0} ⦃e : Eq U⦄ where
  -- A row is that of a user's folder, or of one right below it.
  abbrev pub is_at : U → U → Folder U → Bool
  is_at user id s = e.beq s.user_id user && (e.beq s.id id || is_parent id s.parent_id)

  module _ (db₀ : List (Folder U)) (user : U) where
    -- A folder of the user or one that lies below it, by the rows of a table.
    pub data Inside (top : U) : U → Type 0 where
      here : Inside top top
      down :
          (c : Folder U) {p : U}
          → IsRow c db₀
          → c.user_id ≡ user
          → c.parent_id ≡ some p
          → Inside top p
          → Inside top c.id

    -- Every way down from a folder has at most n folders.
    pub data Low (db : List (Folder U)) : ℕ → U → Type 0 where
      low :
          {n : ℕ} {id : U}
          → ((c : Folder U) → IsRow c db → c.user_id ≡ user → c.parent_id ≡ some id → Low db n c.id)
          → Low db (suc n) id

    abbrev IsWithin : List (Folder U) → List (Folder U) → Type 0
    IsWithin db' db = (r : Folder U) → IsRow r db' → IsRow r db

    -- No row of the user is that of a folder, or of one right below it.
    abbrev pub IsGone : List (Folder U) → U → Type 0
    IsGone db id = (s : Folder U) → IsRow s db → is_at user id s ≡ false

    -- What stays of each row: the row itself, or, below a folder, nothing of the folder that it
    -- was.
    abbrev pub IsCleared : U → List (Folder U) → List (Folder U) → Type 0
    IsCleared top db db' =
        (r : Folder U)
        → IsRow r db
        → IsRow r db' ⊎ ((r.user_id ≡ user) × Inside top r.id × IsGone db' r.id)

    Low-within :
        (db db' : List (Folder U)) {n : ℕ} {id : U} → IsWithin db' db → Low db n id → Low db' n id
    Low-within db db' w (low f) = low (λ c row u p. Low-within db db' w (f c (w c row) u p))

    -- what a call of deleteFolderTree leaves
    record Removed (top id : U) (db db' : List (Folder U)) : Type 0 where
      within : IsWithin db' db
      gone : IsGone db' id
      cleared : IsCleared top db db'

    record Looped (top : U) (cs db db' : List (Folder U)) : Type 0 where
      within : IsWithin db' db
      gone : (c : Folder U) → IsRow c cs → IsGone db' c.id
      cleared : IsCleared top db db'

    Looped-next :
        (top : U) (c : Folder U) (cs db db' db'' : List (Folder U))
        → Removed top c.id db db'
        → Looped top cs db' db''
        → Looped top (c ∷ cs) db db''
    Looped-next top c cs db db' db'' r l = record {
      within = λ s h. r.within s (l.within s h);
      gone = λ d h. elim h [
        | inl same ↦ subst (λ f. IsGone db'' f.id) (sym same) (λ t k. r.gone t (l.within t k))
        | inr k ↦ l.gone d k
      ];
      cleared = λ s h. elim (r.cleared s h) [
        | inl k ↦ l.cleared s k
        | inr (u, i, g) ↦ inr (u, i, λ t k. g t (l.within t k))
      ];
    }

    delete_each-ends :
        (top : U) (delete : U → List (Folder U) → Option (List (Folder U)))
        → (cs db : List (Folder U))
        → ((c : Folder U)
            → IsRow c cs
            → (now : List (Folder U)) → IsWithin now db
            → (db' : List (Folder U)) × (delete c.id now ≡ some db') × Removed top c.id now db')
        → (db' : List (Folder U)) × (delete_each delete cs db ≡ some db') × Looped top cs db db'
    unfolding delete_each
    delete_each-ends top delete [] db f =
        (db, refl, record { within = λ s h. h; gone = λ c h. absurd h; cleared = λ s h. inl h })
    delete_each-ends top delete (c ∷ cs) db f =
        let (db', q, r) = f c (inl refl) db (λ s h. h) in
        let (db'', q', l) =
          delete_each-ends top delete cs db'
            (λ d h now w. f d (inr h) now (λ s k. r.within s (w s k))) in
        (db'', ground (arith, q, q'), Looped-next top c cs db db' db'' r l)

    is_parent-some : (id : U) (m : Option U) → is_parent id m ≡ true → m ≡ some id
    is_parent-some id none h = ground arith
    is_parent-some id (some p) h = ap some ((e.beq_iff p id).0 h)

    child_parts :
        (id : U) (db : List (Folder U)) (c : Folder U)
        → IsRow c (children_of user id db)
        → IsRow c db × (c.user_id ≡ user) × (c.parent_id ≡ some id)
    unfolding children_of
    child_parts id db c h =
        let (row, t) =
          filter-IsRow (λ f. e.beq f.user_id user && is_parent id f.parent_id) c db h in
        (
          row,
          (e.beq_iff c.user_id user).0 (ground arith),
          is_parent-some id c.parent_id (ground arith),
        )

    module _ (top id : U) (db db' : List (Folder U))
        (l : Looped top (children_of user id db) db db') where
      row-IsGone : IsGone (delete_row user id db') id
      unfolding delete_row children_of
      row-IsGone s h =
          let (row, t) = filter-IsRow _ s db' h in
          elim (Bool-cases (e.beq s.user_id user && is_parent id s.parent_id)) [
            | inl q ↦
                let child =
                  IsRow-filter (λ f. e.beq f.user_id user && is_parent id f.parent_id) s db
                    (l.within s row) q in
                absurd (ground (arith, q, l.gone s child s row, e.beq_iff s.id s.id))
            | inr q ↦ ground (arith, q, t)
          ]

      row-IsCleared : Inside top id → IsCleared top db (delete_row user id db')
      unfolding delete_row
      row-IsCleared i r h = elim (l.cleared r h) [
        | inr (u, j, g) ↦ inr (u, j, λ s k. g s (filter-IsRow _ s db' k).0)
        | inl k ↦ elim (Bool-cases (not (e.beq r.id id && e.beq r.user_id user))) [
          | inl t ↦ inl (IsRow-filter _ r db' k t)
          | inr t ↦
              let same : r.id ≡ id = (e.beq_iff r.id id).0 (ground (arith, t)) in
              inr (
                (e.beq_iff r.user_id user).0 (ground (arith, t)),
                subst (Inside top) (sym same) i,
                subst (IsGone (delete_row user id db')) (sym same) row-IsGone,
              )
        ]
      ]

      delete_row-Removed : Inside top id → Removed top id db (delete_row user id db')
      unfolding delete_row
      delete_row-Removed i = record {
        within = λ s h. l.within s (filter-IsRow _ s db' h).0;
        gone = row-IsGone;
        cleared = row-IsCleared i;
      }

    Low-positive : (db : List (Folder U)) {n : ℕ} {id : U} → Low db n id → 1 ≤ n
    Low-positive db (low f) = omega arith

    deletes :
        (top id : U) (n fuel : ℕ) (db : List (Folder U))
        → Low db n id
        → n ≤ fuel
        → IsWithin db db₀
        → Inside top id
        → (db' : List (Folder U)) × (delete_folder_tree fuel user id db ≡ some db')
          × Removed top id db db'
    unfolding delete_folder_tree
    deletes top id zero fuel db h le w i = absurd (ground (arith, Low-positive db h))
    deletes top id (suc n) zero db (low f) le w i = absurd (ground arith)
    deletes top id (suc n) (suc fuel) db (low f) le w i =
        let (db', q, l) =
          delete_each-ends top (delete_folder_tree fuel user) (children_of user id db) db
            (λ c h now v.
              let (row, u, p) = child_parts id db c h in
              deletes top c.id n fuel now (Low-within db now v (f c row u p)) (omega arith)
                (λ s k. w s (v s k)) (Inside.down c (w c row) u p i)) in
        (delete_row user id db', ground (arith, q), delete_row-Removed top id db db' l i)

  -- deleteFolder of a folder that is found, where every way down from it has at most n folders and
  -- the fuel is not less: it answers, every row that is left was there, no row of the user is left
  -- that is the folder's or right below it, and of the rows that were there each is left, or it is
  -- the user's and lies in the folder, and no row of the user is left with its id or right below
  -- it.
  pub delete_folder-removes :
      (db : List (Folder U)) (user id : U) (f : Folder U) (n fuel : ℕ)
      → resolve_owned_folder user id db ≡ some f
      → Low db user db n id
      → n ≤ fuel
      → (db' : List (Folder U)) × (delete_folder fuel user id db ≡ (db', no_content))
        × All (λ r. IsRow r db) db'
        × All (λ s. is_at user id s ≡ false) db'
        × All
            (λ r.
              IsRow r db'
              ⊎ ((r.user_id ≡ user)
                  × Inside db user id r.id
                  × All (λ s. is_at user r.id s ≡ false) db'))
            db
  unfolding delete_folder delete_found deleted
  delete_folder-removes db user id f n fuel found l le =
      let (db', q, r) = deletes db user id id n fuel db l le (λ s h. h) Inside.here in
      (
        db',
        ground (arith, found, q),
        All-IsRow _ db' r.within,
        All-IsRow _ db' r.gone,
        All-IsRow _ db (λ s h. elim (r.cleared s h) [
          | inl k ↦ inl k
          | inr (u, i, g) ↦ inr (u, i, All-IsRow _ db' g)
        ]),
      )
