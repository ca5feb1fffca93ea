-- ===== src/Server/Folders/Answers.antt =====
-- handlers_folder.go: in every table that requests can lead to, updateFolder and deleteFolder
-- answer.
use optiflow.Prelude.{
  All, ap, arith, ℕ, ◌≤◌, ◌≡◌, ◌≢◌, refl, sym, subst, Bool, true, false, Option, none, some, List,
  [], String, Eq,
}
use optiflow.Server.Folders.{
  Response, delete_folder, delete_found, no_content, Folder, hanging, resolve_owned_folder,
  is_descendant, ParentField, absent, to_root, into, named, update_folder, update_found, place,
  move_into, move_checked,
}
use optiflow.Server.Folders.Walk.{Rooted, is_descendant_iff}
use optiflow.Server.Folders.Forest.{IsForest}
use optiflow.Server.Folders.Keyed.{IsKeyed, handle-IsKeyed}
use optiflow.Server.Folders.Depth.{forest-Low}
use optiflow.Server.Folders.Removal.{delete_folder-removes}
use optiflow.Server.Members.{All-IsRow}
use optiflow.Server.Counting.{count}
use optiflow.Server.Folders.Handlers.{Request, handle, IsPossible, handle-IsForest}

module _ {U : Type 0} ⦃e : Eq U⦄ where
  -- The tables that requests lead to from an empty one, one request after another.
  pub data Reach : List (Folder U) → Type 0 where
    empty : Reach []
    next :
        {db db' : List (Folder U)}
        → Reach db
        → (fuel : ℕ) (r : Request U) → IsPossible r db
        → db' ≡ (handle fuel r db).0
        → Reach db'

  empty-IsForest : IsForest {U = U} []
  unfolding resolve_owned_folder
  empty-IsForest user c = Rooted.top refl

  Reach-IsForest : {db : List (Folder U)} → Reach db → IsForest db
  Reach-IsForest empty = empty-IsForest
  Reach-IsForest (next {db} r fuel q ok same) =
      subst IsForest (sym same) (handle-IsForest fuel q db ok (Reach-IsForest r))

  checked_answers :
      (row : Folder U) (p : U) (db : List (Folder U)) (m : Option Bool) (b : Bool)
      → m ≡ some b
      → (move_checked row p db m).1 ≢ hanging
  unfolding move_checked
  checked_answers row p db none b h k = cc
  checked_answers row p db (some true) b h k = cc
  checked_answers row p db (some false) b h k = cc

  into_answers :
      (fuel : ℕ) (user : U) (row : Folder U) (p : U) (db : List (Folder U)) (m : Option (Folder U))
      (b : Bool)
      → is_descendant fuel db user row.id p ≡ some b
      → (move_into fuel user row p db m).1 ≢ hanging
  unfolding move_into
  into_answers fuel user row p db none b h k = cc
  into_answers fuel user row p db (some f) b h k =
      checked_answers row p db (is_descendant fuel db user row.id p) b h k

  module _ (db : List (Folder U)) (forest : IsForest db) (user : U) where
    place_answers :
        (row : Folder U) (parent : ParentField U)
        → (n : ℕ) × ((fuel : ℕ) → n ≤ fuel → (place fuel user row parent db).1 ≢ hanging)
    unfolding place
    place_answers row absent = (0, λ fuel le k. cc)
    place_answers row to_root = (0, λ fuel le k. cc)
    place_answers row (into p) =
        let (n, done) = is_descendant_iff db user row.id p (forest user p) in
        (
          n,
          λ fuel le.
              let (b, r, _) = done fuel le in
              into_answers fuel user row p db (resolve_owned_folder user p db) b r,
        )

    found_answers :
        (name : String) (parent : ParentField U) (m : Option (Folder U))
        → (n : ℕ) × ((fuel : ℕ) → n ≤ fuel → (update_found fuel user m name parent db).1 ≢ hanging)
    unfolding update_found
    found_answers name parent none = (0, λ fuel le k. cc)
    found_answers name parent (some row) = place_answers (named name row) parent

  empty-IsKeyed : IsKeyed {U = U} []
  empty-IsKeyed = record { distinct = λ r h. absurd h; finds = λ r h. absurd h }

  Reach-IsKeyed : {db : List (Folder U)} → Reach db → IsKeyed db
  Reach-IsKeyed empty = empty-IsKeyed
  Reach-IsKeyed (next {db} r fuel q ok same) =
      subst IsKeyed (sym same) (handle-IsKeyed fuel q db ok (Reach-IsKeyed r))

  no_content_ne :
      (r : List (Folder U) × Response) (db : List (Folder U)) → r ≡ (db, no_content) → r.1 ≢ hanging
  no_content_ne r db q k = ground (arith, ap (λ p. p.1) q, k)

  removal_answers :
      (db : List (Folder U)) (user id : U) (m : Option (Folder U))
      → resolve_owned_folder user id db ≡ m
      → IsKeyed db
      → IsForest db
      → (n : ℕ) × ((fuel : ℕ) → n ≤ fuel → (delete_folder fuel user id db).1 ≢ hanging)
  unfolding delete_folder delete_found
  removal_answers db user id none h keyed forest = (0, λ fuel le k. ground (arith, h, k))
  removal_answers db user id (some f) h keyed forest =
      let (n, bound) = forest-Low db user keyed forest id in
      (
        n,
        λ fuel le k.
            let removed = delete_folder-removes db user id f n fuel h bound le in
            no_content_ne _ _ removed.1 k,
      )

  -- In every table that requests, each handled as a whole, lead to from an empty one: the folders
  -- of every user form a forest; the id of each row is that of one row in the whole table, and a
  -- look-up for its user and id finds the row; and an updateFolder and a deleteFolder come to their
  -- answers, whatever they ask for.
  pub Reach-answers :
      (db : List (Folder U)) (user id : U) (name : String) (parent : ParentField U)
      → Reach db
      → IsForest db
        × All
            (λ r.
              (count (λ f. e.beq f.id r.id) db ≡ 1)
              × (resolve_owned_folder r.user_id r.id db ≡ some r))
            db
        × ((n : ℕ) × ((fuel : ℕ)
              → n ≤ fuel
              → (update_folder fuel user id name parent db).1 ≢ hanging))
        × ((n : ℕ) × ((fuel : ℕ) → n ≤ fuel → (delete_folder fuel user id db).1 ≢ hanging))
  unfolding update_folder
  Reach-answers db user id name parent r =
      let forest = Reach-IsForest r in
      let keyed = Reach-IsKeyed r in
      (
        forest,
        All-IsRow _ db (λ r m. (keyed.distinct r m, keyed.finds r m)),
        found_answers db forest user name parent (resolve_owned_folder user id db),
        removal_answers db user id (resolve_owned_folder user id db) refl keyed forest,
      )
