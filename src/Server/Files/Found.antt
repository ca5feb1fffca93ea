-- ===== src/Server/Files/Found.antt =====
-- The rows of files that the handlers find, and the branches of a handler.
use optiflow.Prelude.{
  ◌≡◌, refl, inl, inr, Bool, true, false, ◌&&◌, some, List, [], ◌∷◌, if◌then◌else◌, Bool-cases,
  arith, Eq,
}
use optiflow.Server.Members.{IsRow}
use optiflow.Server.Files.{File, resolve_owned_file}
use optiflow.Server.Files.Lineages.{IsSound}

module _ {U : Type 0} ⦃e : Eq U⦄ where
  pub found-IsRow :
      (user id : U) (files : List (File U)) (f : File U)
      → resolve_owned_file user id files ≡ some f
      → IsRow f files × (f.id ≡ id) × (f.user_id ≡ user)
  unfolding resolve_owned_file
  found-IsRow user id [] f h = absurd (ground (arith, h))
  found-IsRow user id (g ∷ gs) f h = elim (Bool-cases (e.beq g.id id && e.beq g.user_id user)) [
    | inl y ↦
        let same : f ≡ g = ground (arith, h, y) in
        (
          inl same,
          ground (arith, y, same, e.beq_iff g.id id),
          ground (arith, y, same, e.beq_iff g.user_id user),
        )
    | inr n ↦ let (m, i, u) = found-IsRow user id gs f (ground (arith, h, n)) in (inr m, i, u)
  ]

  pub if-IsSound :
      {B : Type 0} (b : Bool) (x y : List (File U) × B)
      → (b ≡ true → IsSound x.0)
      → (b ≡ false → IsSound y.0)
      → IsSound (if b then x else y).0
  if-IsSound true x y f g = f refl
  if-IsSound false x y f g = g refl
