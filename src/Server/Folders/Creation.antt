-- ===== src/Server/Folders/Creation.antt =====
-- createFolder keeps the folders a forest: the id of a new row is not in use.
use optiflow.Prelude.{
  ◌≡◌, ◌≢◌, refl, ◌∙◌, subst, inl, inr, true, false, Option, none, some, List, [], ◌∷◌, ◌++◌,
  Bool-cases, if◌then◌else◌, All, Eq, arith,
}
use optiflow.Server.Folders.{Folder, resolve_owned_folder}
use optiflow.Server.Folders.Walk.{parent, Rooted}
use optiflow.Server.Folders.Rows.{resolve-append}
use optiflow.Server.Folders.Forest.{IsForest}

module _ {U : Type 0} ⦃e : Eq U⦄ where
  -- No row has the id, as its own or as its parent's: what gen_random_uuid promises.
  abbrev pub IsFresh : U → List (Folder U) → Type 0
  IsFresh id db = All (λ f. (e.beq f.id id ≡ false) × (f.parent_id ≢ some id)) db

  pub fresh-none :
      (id user : U) (db : List (Folder U)) → IsFresh id db → resolve_owned_folder user id db ≡ none
  unfolding resolve_owned_folder
  fresh-none id user [] h = refl
  fresh-none id user (f ∷ fs) h = ground (arith, h, fresh-none id user fs h.1)

  fresh-parent : (id user c : U) (db : List (Folder U)) → IsFresh id db → parent db user c ≢ some id
  unfolding resolve_owned_folder
  fresh-parent id user c [] h k = cc
  fresh-parent id user c (f ∷ fs) h k = absurd (ground (arith, h, k, fresh-parent id user c fs h.1))

  module _ (db : List (Folder U)) (new : Folder U) (fresh : IsFresh new.id db) where
    ne_new : (user c p : U) → parent db user c ≡ some p → e.beq new.id p ≡ false
    ne_new user c p h = elim (Bool-cases (e.beq new.id p)) [
      | inl same ↦
          absurd
            (fresh-parent new.id user c db fresh (ground (arith, h, (e.beq_iff new.id p).0 same)))
      | inr ne ↦ ne
    ]

    same_parent :
        (user c : U) → e.beq new.id c ≡ false → parent (db ++ new ∷ []) user c ≡ parent db user c
    same_parent user c ne = ground (arith, ne, resolve-append user c db new)

    Rooted-old :
        (user : U) {c : U}
        → Rooted db user c
        → e.beq new.id c ≡ false
        → Rooted (db ++ new ∷ []) user c
    Rooted-old user (Rooted.top {c} h) ne = Rooted.top (same_parent user c ne ∙ h)
    Rooted-old user (Rooted.up {c} {p} h r) ne =
        Rooted.up (same_parent user c ne ∙ h) (Rooted-old user r (ne_new user c p h))

    none_at : (user c : U) → e.beq new.id c ≡ true → resolve_owned_folder user c db ≡ none
    none_at user c same =
        subst (λ d. resolve_owned_folder user d db ≡ none) ((e.beq_iff new.id c).0 same)
          (fresh-none new.id user db fresh)

    -- the parent of the new folder, for its user, and none for another
    new_parent :
        (user c : U)
        → e.beq new.id c ≡ true
        → parent (db ++ new ∷ []) user c ≡ (if e.beq new.user_id user then new.parent_id else none)
    new_parent user c same = ground (arith, same, none_at user c same, resolve-append user c db new)

    Rooted-at :
        (user c : U) (m : Option U)
        → parent (db ++ new ∷ []) user c ≡ m
        → ((p : U) → m ≡ some p → e.beq new.id p ≡ false)
        → IsForest db
        → Rooted (db ++ new ∷ []) user c
    Rooted-at user c none h away forest = Rooted.top h
    Rooted-at user c (some p) h away forest =
        Rooted.up h (Rooted-old user (forest user p) (away p refl))

    pub append-IsForest :
        ((p : U) → new.parent_id ≡ some p → e.beq new.id p ≡ false)
        → IsForest db
        → IsForest (db ++ new ∷ [])
    append-IsForest away forest user c = elim (Bool-cases (e.beq new.id c)) [
      | inl same ↦
          Rooted-at user c (if e.beq new.user_id user then new.parent_id else none)
            (new_parent user c same) (λ p h. away p (ground (arith, h))) forest
      | inr ne ↦ Rooted-old user (forest user c) ne
    ]

  -- A folder that is found is not the new one.
  pub found_ne :
      (user id p : U) (db : List (Folder U)) (f : Folder U)
      → IsFresh id db
      → resolve_owned_folder user p db ≡ some f
      → e.beq id p ≡ false
  found_ne user id p db f fresh h = elim (Bool-cases (e.beq id p)) [
    | inl same ↦ absurd (ground (arith, h, (e.beq_iff id p).0 same, fresh-none id user db fresh))
    | inr ne ↦ ne
  ]
