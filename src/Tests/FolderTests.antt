-- ===== src/Tests/FolderTests.antt =====
-- handlers_folder.go at concrete tables, with numbers as ids.
use optiflow.Prelude.{
  false, ap, sym, subst, ◌⊎◌, inl, inr, All, arith, ℕ, ◌≤◌, ◌≡◌, ◌≢◌, refl, ◌↔◌, Bool, true, Option,
  none, some, List, [], ◌∷◌, nat_eq,
}
use optiflow.Server.Folders.{
  Folder, resolve_owned_folder, is_descendant, into, update_folder, create_folder, delete_folder,
  saved, no_content, hanging, bad_request,
}
use optiflow.Server.Folders.Walk.{Below, Rooted, is_descendant_iff}
use optiflow.Server.Folders.Forest.{IsForest}
use optiflow.Server.Folders.Handlers.{creating, handle, handle-IsForest}
use optiflow.Server.Folders.Answers.{Reach, empty, next, Reach-answers}
use optiflow.Server.Folders.Removal.{Low, Inside, is_at, delete_folder-removes}
use optiflow.Server.Members.{IsRow}
use optiflow.Server.Counting.{count}
use optiflow.Server.Folders.Race.{saved_under, moves_race}

abbrev folder : ℕ → Option ℕ → Folder ℕ
folder id parent = record { id = id; name = "f"; user_id = 7; parent_id = parent }

-- 2 in 1, and 3 beside them
abbrev tree : List (Folder ℕ)
tree = folder 1 none ∷ folder 2 (some 1) ∷ folder 3 none ∷ []

is_descendant_iff_example :
    (n : ℕ) × ((fuel : ℕ)
      → n ≤ fuel
      → (b : Bool) × (is_descendant fuel tree 7 1 2 ≡ some b) × ((b ≡ true) ↔ Below tree 7 1 2))
unfolding resolve_owned_folder
is_descendant_iff_example = is_descendant_iff tree 7 1 2 (Rooted.up refl (Rooted.top refl))

-- the move of 1 into 2 is refused, that of 1 into 3 is carried out
moves_tested :
    (is_descendant 2 tree 7 1 2 ≡ some true)
    × (update_folder 3 7 1 "" (into 2) tree
        ≡ (tree, bad_request "cannot move a folder into itself or one of its descendants"))
    × ((update_folder 3 7 1 "" (into 3) tree).1 ≡ saved)
unfolding is_descendant update_folder resolve_owned_folder
moves_tested = (refl, refl, refl)

removal_tested : delete_folder 3 7 1 tree ≡ (folder 3 none ∷ [], no_content)
unfolding delete_folder
removal_tested = refl

reached : Reach (folder 1 none ∷ [])
unfolding handle create_folder
reached = next empty 0 (creating 7 1 "f" none) tt refl

handle-IsForest_example : IsForest {U = ℕ} (handle 0 (creating 7 1 "f" none) []).0
unfolding resolve_owned_folder
handle-IsForest_example =
    handle-IsForest 0 (creating 7 1 "f" none) [] tt (λ user c. Rooted.top refl)

Reach-answers_example :
    IsForest (folder 1 none ∷ [])
    × All
        (λ r.
          (count (λ f. nat_eq.beq f.id r.id) (folder 1 none ∷ []) ≡ 1)
          × (resolve_owned_folder r.user_id r.id (folder 1 none ∷ []) ≡ some r))
        (folder 1 none ∷ [])
    × ((n : ℕ) × ((fuel : ℕ)
          → n ≤ fuel
          → (update_folder fuel 7 1 "g" (into 1) (folder 1 none ∷ [])).1 ≢ hanging))
    × ((n : ℕ) × ((fuel : ℕ)
          → n ≤ fuel
          → (delete_folder fuel 7 1 (folder 1 none ∷ [])).1 ≢ hanging))
Reach-answers_example = Reach-answers (folder 1 none ∷ []) 7 1 "g" (into 1) reached

abbrev pair : List (Folder ℕ)
pair = folder 1 none ∷ folder 2 none ∷ folder 3 none ∷ []

moves_race_example :
    (update_folder 2 7 1 "" (into 2) pair ≡ (saved_under (folder 1 none) 2 pair, saved))
    × (update_folder 2 7 2 "" (into 1) pair ≡ (saved_under (folder 2 none) 1 pair, saved))
    × ((fuel : ℕ)
        → is_descendant fuel
            (saved_under (folder 2 none) 1 (saved_under (folder 1 none) 2 pair))
            7
            3
            1
          ≡ none)
unfolding resolve_owned_folder
moves_race_example =
    moves_race pair 7 1 2 3 (folder 1 none) (folder 2 none) refl refl refl refl refl refl refl

abbrev TreeBelow : ℕ → ℕ → Type 0
TreeBelow n id = Low tree 7 tree n id

no_child : (c : Folder ℕ) → IsRow c tree → c.parent_id ≡ some 2 → ⊥
no_child c (inl s) p = ground (arith, ap (λ f. f.parent_id) s, p)
no_child c (inr (inl s)) p = ground (arith, ap (λ f. f.parent_id) s, p)
no_child c (inr (inr (inl s))) p = ground (arith, ap (λ f. f.parent_id) s, p)
no_child c (inr (inr (inr h))) p = h

one_child : (c : Folder ℕ) → IsRow c tree → c.parent_id ≡ some 1 → c.id ≡ 2
one_child c (inl s) p = ground (arith, ap (λ f. f.parent_id) s, p)
one_child c (inr (inl s)) p = ap (λ f. f.id) s
one_child c (inr (inr (inl s))) p = ground (arith, ap (λ f. f.parent_id) s, p)
one_child c (inr (inr (inr h))) p = absurd h

below_two : TreeBelow 1 2
below_two = Low.low {id = 2} (λ c row u p. absurd (no_child c row p))

below_one : TreeBelow 2 1
below_one = Low.low {id = 1} (λ c row u p. subst (TreeBelow 1) (sym (one_child c row p)) below_two)

delete_folder-removes_example :
    (db' : List (Folder ℕ)) × (delete_folder 3 7 1 tree ≡ (db', no_content))
    × All (λ r. IsRow r tree) db'
    × All (λ s. is_at 7 1 s ≡ false) db'
    × All
        (λ r.
          IsRow r db'
          ⊎ ((r.user_id ≡ 7) × Inside tree 7 1 r.id × All (λ s. is_at 7 r.id s ≡ false) db'))
        tree
unfolding resolve_owned_folder
delete_folder-removes_example =
    delete_folder-removes tree 7 1 (folder 1 none) 2 3 refl below_one (omega arith)
