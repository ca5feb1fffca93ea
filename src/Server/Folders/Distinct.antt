-- ===== src/Server/Folders/Distinct.antt =====
-- handlers_folder.go: what the statements that change the table of folders leave of its ids.
use optiflow.Prelude.{
  ◌≡◌, refl, ap, ◌∙◌, inl, inr, false, not, ◌&&◌, List, [], ◌∷◌, ◌++◌, arith, Eq,
}
use optiflow.Server.Members.{IsRow, filter-IsRow, map-IsRow, append-IsRow}
use optiflow.Server.Counting.{
  count, count-append, count-map, count-none, count-filter, count_unique,
}
use optiflow.Server.Folders.{Folder, save, delete_row}
use optiflow.Server.Folders.Creation.{IsFresh}

module _ {U : Type 0} ⦃e : Eq U⦄ where
  -- The id of each row is that of one row.
  abbrev pub IsDistinct : List (Folder U) → Type 0
  IsDistinct db = (r : Folder U) → IsRow r db → count (λ f. e.beq f.id r.id) db ≡ 1

  fresh_ne :
      (id : U) (db : List (Folder U)) (r : Folder U)
      → IsFresh id db
      → IsRow r db
      → e.beq r.id id ≡ false
  fresh_ne id [] r h m = absurd m
  fresh_ne id (f ∷ fs) r (h, hs) (inl same) = ap (λ g. e.beq g.id id) same ∙ h.0
  fresh_ne id (f ∷ fs) r (h, hs) (inr m) = fresh_ne id fs r hs m

  pub append-IsDistinct :
      (db : List (Folder U)) (new : Folder U)
      → IsFresh new.id db
      → IsDistinct db
      → IsDistinct (db ++ new ∷ [])
  append-IsDistinct db new fresh d r h =
      count-append (λ f. e.beq f.id r.id) db (new ∷ []) ∙ elim (append-IsRow r db (new ∷ []) h) [
        | inl k ↦ ground (
          arith,
          d r k,
          fresh_ne new.id db r fresh k,
          e.beq_iff new.id r.id,
          e.beq_iff r.id new.id,
        )
        | inr (inl same) ↦ ground (
          arith,
          ap (λ g. g.id) same,
          e.beq_iff new.id r.id,
          count-none (λ f. e.beq f.id r.id) db
              (λ f m. ap (λ g. e.beq f.id g.id) same ∙ fresh_ne new.id db f fresh m),
        )
        | inr (inr none_left) ↦ absurd none_left
      ]

  -- the ids that a save leaves are those that were there
  save-count :
      (row : Folder U) (id : U) (db : List (Folder U))
      → count (λ f. e.beq f.id id) (save row db) ≡ count (λ f. e.beq f.id id) db
  unfolding save
  save-count row id db =
      count-map (λ f. e.beq f.id id) (λ f. e.beq f.id id) _ db
        (λ f m. ground (arith, e.beq_iff f.id row.id))

  pub save-IsDistinct :
      (row : Folder U) (db : List (Folder U)) → IsDistinct db → IsDistinct (save row db)
  unfolding save
  save-IsDistinct row db d r h =
      let (f, m, same) = map-IsRow _ r db h in
      let kept : r.id ≡ f.id = ap (λ g. g.id) same ∙ ground (arith, e.beq_iff f.id row.id) in
      save-count row r.id db ∙ ap (λ id. count (λ g. e.beq g.id id) db) kept ∙ d f m

  pub delete_row-IsDistinct :
      (user id : U) (db : List (Folder U)) → IsDistinct db → IsDistinct (delete_row user id db)
  unfolding delete_row
  delete_row-IsDistinct user id db d r h =
      let (m, t) = filter-IsRow _ r db h in
      count-filter (λ f. e.beq f.id r.id) _ db
        (λ f k q.
          ap (λ g. not (e.beq g.id id && e.beq g.user_id user))
            (count_unique (λ g. e.beq g.id r.id) db (d r m) f r k m q
              ((e.beq_iff r.id r.id).1 refl))
          ∙ t)
      ∙ d r m
