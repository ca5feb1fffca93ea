-- ===== src/Server/Files/Permuted.antt =====
-- What the queries of the table of files give does not depend on the order of the rows.
use optiflow.Prelude.{
  ◌≡◌, ◌≢◌, refl, sym, ap, ◌∙◌, subst, inl, inr, true, ◌&&◌, Option, none, some, List, [], ◌∷◌,
  ◌++◌, map, Bool-cases, arith, Eq,
}
use mathlib.Core.List.{Permᴰ}
use mathlib.Core.List.Permᴰ
use optiflow.Server.Members.{IsRow}
use optiflow.Server.Counting.{none-count, count_unique}
use optiflow.Server.Files.{File, lineage_root_id, in_lineage, resolve_owned_file}
use optiflow.Server.Files.Uploads.{used_bytes, current_version, max_version}
use optiflow.Server.Files.Lineages.{is_of, is_current_of, IsSound, same_row, in_lineage-is_of}
use optiflow.Server.Files.Found.{found-IsRow}
use optiflow.Server.Files.Succession.{current_version-finds}

module _ {A : Type 0} where
  pub perm-IsRow : {xs ys : List A} (f : A) → Permᴰ xs ys → IsRow f xs → IsRow f ys
  perm-IsRow f Permᴰ.nil m = m
  perm-IsRow f (Permᴰ.cons e d) (inl same) = inl (same ∙ e)
  perm-IsRow f (Permᴰ.cons e d) (inr m) = inr (perm-IsRow f d m)
  perm-IsRow f (Permᴰ.swap p q) (inl same) = inr (inl (same ∙ p))
  perm-IsRow f (Permᴰ.swap p q) (inr (inl same)) = inl (same ∙ q)
  perm-IsRow f (Permᴰ.swap p q) (inr (inr m)) = inr (inr m)
  perm-IsRow f (Permᴰ.trans d c) m = perm-IsRow f c (perm-IsRow f d m)

  pub perm-map : {xs ys : List A} (h : A → A) → Permᴰ xs ys → Permᴰ (map h xs) (map h ys)
  perm-map h Permᴰ.nil = Permᴰ.nil
  perm-map h (Permᴰ.cons e d) = Permᴰ.cons (ap h e) (perm-map h d)
  perm-map h (Permᴰ.swap p q) = Permᴰ.swap (ap h p) (ap h q)
  perm-map h (Permᴰ.trans d c) = Permᴰ.trans (perm-map h d) (perm-map h c)

  pub perm-append : {xs ys : List A} (zs : List A) → Permᴰ xs ys → Permᴰ (xs ++ zs) (ys ++ zs)
  perm-append zs Permᴰ.nil = Permᴰ.refl zs
  perm-append zs (Permᴰ.cons e d) = Permᴰ.cons e (perm-append zs d)
  perm-append zs (Permᴰ.swap p q) = Permᴰ.swap p q
  perm-append zs (Permᴰ.trans d c) = Permᴰ.trans (perm-append zs d) (perm-append zs c)

module _ {U : Type 0} ⦃e : Eq U⦄ where
  pub used_bytes-perm :
      {xs ys : List (File U)} (user : U) → Permᴰ xs ys → used_bytes user xs ≡ used_bytes user ys
  unfolding used_bytes
  used_bytes-perm user Permᴰ.nil = refl
  used_bytes-perm user (Permᴰ.cons e d) = ground (arith, e, used_bytes-perm user d)
  used_bytes-perm user (Permᴰ.swap p q) = ground (arith, p, q)
  used_bytes-perm user (Permᴰ.trans d c) = used_bytes-perm user d ∙ used_bytes-perm user c

  pub max_version-perm :
      {xs ys : List (File U)} (user root : U)
      → Permᴰ xs ys
      → max_version user root xs ≡ max_version user root ys
  unfolding max_version
  max_version-perm user root Permᴰ.nil = refl
  max_version-perm user root (Permᴰ.cons e d) = ground (arith, e, max_version-perm user root d)
  max_version-perm user root (Permᴰ.swap p q) = ground (arith, p, q)
  max_version-perm user root (Permᴰ.trans d c) =
      max_version-perm user root d ∙ max_version-perm user root c

  resolve-finds :
      (user id : U) (files : List (File U)) (f : File U)
      → IsRow f files
      → f.id ≡ id
      → f.user_id ≡ user
      → resolve_owned_file user id files ≢ none
  unfolding resolve_owned_file
  resolve-finds user id [] f m i u h = m
  resolve-finds user id (g ∷ gs) f (inl same) i u h = ground (
    arith,
    h,
    ap (λ r. r.id) same,
    ap (λ r. r.user_id) same,
    i,
    u,
    e.beq_iff g.id id,
    e.beq_iff g.user_id user,
  )
  resolve-finds user id (g ∷ gs) f (inr m) i u h =
      resolve-finds user id gs f m i u (ground (arith, h))

  found_current :
      (user root : U) (files : List (File U)) (c : File U)
      → current_version user root files ≡ some c
      → IsRow c files × ((in_lineage user root c && c.is_current) ≡ true)
  unfolding current_version
  found_current user root [] c h = absurd (ground (arith, h))
  found_current user root (f ∷ fs) c h =
      elim (Bool-cases (in_lineage user root f && f.is_current)) [
        | inl y ↦
            let same : c ≡ f = ground (arith, h, y) in
            (inl same, subst (λ r. (in_lineage user root r && r.is_current) ≡ true) (sym same) y)
        | inr n ↦ let (m, k) = found_current user root fs c (ground (arith, h, n)) in (inr m, k)
      ]

  module _ (xs ys : List (File U)) (s : IsSound xs) (d : Permᴰ xs ys) (user : U) where
    same_found :
        (id : U) (m n : Option (File U))
        → resolve_owned_file user id xs ≡ m
        → resolve_owned_file user id ys ≡ n
        → n ≡ m
    same_found id none none p q = refl
    same_found id (some f) none p q =
        let (m, i, u) = found-IsRow user id xs f p in
        absurd (resolve-finds user id ys f (perm-IsRow f d m) i u q)
    same_found id none (some g) p q =
        let (m, i, u) = found-IsRow user id ys g q in
        absurd (resolve-finds user id xs g (perm-IsRow g (Permᴰ.symm d) m) i u p)
    same_found id (some f) (some g) p q =
        let (m, i, u) = found-IsRow user id xs f p in
        let (l, j, v) = found-IsRow user id ys g q in
        ap some (
          same_row xs g f s.shaped.keyed (perm-IsRow g (Permᴰ.symm d) l) m
            (ground (arith, i, j, e.beq_iff g.id f.id)))

    pub resolve-perm : (id : U) → resolve_owned_file user id ys ≡ resolve_owned_file user id xs
    resolve-perm id =
        same_found id (resolve_owned_file user id xs) (resolve_owned_file user id ys) refl refl

    module _ (t : File U) (row : IsRow t xs) where
      same_current :
          (m n : Option (File U))
          → current_version user (lineage_root_id t) xs ≡ m
          → current_version user (lineage_root_id t) ys ≡ n
          → n ≡ m
      same_current none none p q = refl
      same_current (some c) none p q =
          let (m, h) = found_current user (lineage_root_id t) xs c p in
          let (g, k, l, w) =
            current_version-finds user (lineage_root_id t) ys c (perm-IsRow c d m) h in
          absurd (ground (arith, q, k))
      same_current none (some c) p q =
          let (m, h) = found_current user (lineage_root_id t) ys c q in
          let (g, k, l, w) =
            current_version-finds user (lineage_root_id t) xs c (perm-IsRow c (Permᴰ.symm d) m) h in
          absurd (ground (arith, p, k))
      same_current (some c) (some g) p q =
          let (m, h) = found_current user (lineage_root_id t) xs c p in
          let (l, k) = found_current user (lineage_root_id t) ys g q in
          let here = perm-IsRow g (Permᴰ.symm d) l in
          let is_c : is_current_of user (lineage_root_id t) c ≡ true =
            ground (arith, h, in_lineage-is_of xs user t c s.shaped row m) in
          let is_g : is_current_of user (lineage_root_id t) g ≡ true =
            ground (arith, k, in_lineage-is_of xs user t g s.shaped row here) in
          elim (s.single user (lineage_root_id t)) [
            | inl z ↦
                absurd (ground (arith, is_c, none-count (is_of user (lineage_root_id t)) xs z c m))
            | inr one ↦
                ap some (
                  count_unique (is_current_of user (lineage_root_id t)) xs one g c here m is_g is_c)
          ]

      pub current-perm :
          current_version user (lineage_root_id t) ys ≡ current_version user (lineage_root_id t) xs
      current-perm =
          same_current (current_version user (lineage_root_id t) xs)
            (current_version user (lineage_root_id t) ys) refl refl
