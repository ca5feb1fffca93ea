-- ===== src/Server/Files/Order.antt =====
-- handlers_versions.go of backend/cmd/upload-svc and backend/cmd/api-svc: the order in which the
-- database gives its rows, which a list has and a table has not.
use optiflow.Prelude.{
  ℕ, ◌+◌, ◌≡◌, refl, sym, ap, subst, Bool, true, false, Option, none, some, List, [], ◌∷◌, ◌++◌,
  String, truthy, if◌then◌else◌, Eq,
}
use mathlib.Core.List.{Permᴰ}
use mathlib.Core.List.Permᴰ
use optiflow.Server.Members.{IsRow}
use optiflow.Server.Files.{
  File, Answer, lineage_root_id, in_lineage, resolve_owned_file, supersede, make_current,
  restore_target, restore_found, restore_file_version,
}
use optiflow.Server.Files.Uploads.{
  Quota, within, unknown, beyond, check_quota, compare_quota, current_version, max_version,
  new_version, add_version, signed_answer, presign_after, version_checked, presign_lineage,
  presign_version,
}
use optiflow.Server.Files.Tree.{Db}
use optiflow.Server.Files.Lineages.{IsSound}
use optiflow.Server.Files.Found.{found-IsRow}
use optiflow.Server.Files.Reached.{Services, Reach, Reach-IsSound}
use optiflow.Server.Files.Permuted.{
  perm-map, perm-append, used_bytes-perm, max_version-perm, resolve-perm, current-perm,
}

module _ {U : Type 0} ⦃e : Eq U⦄ where
  -- Two outcomes of a handler: the same answer, and tables with the same rows.
  abbrev pub IsSame : List (File U) × Answer U → List (File U) × Answer U → Type 0
  IsSame r s = (r.1 ≡ s.1) × Permᴰ r.0 s.0

  module _ (quota_of : U → Option ℕ) (text : U → String) (sign : String → Option String)
      (xs ys : List (File U)) (s : IsSound xs) (d : Permᴰ xs ys) (user id : U) where
    after-IsSame :
        (root : U) (size : ℕ) (mime : String) (m : Option (File U))
        → IsSame
            (presign_after quota_of text sign user id root size mime m xs)
            (presign_after quota_of text sign user id root size mime m ys)
    unfolding presign_after add_version supersede new_version
    after-IsSame root size mime none = (refl, d)
    after-IsSame root size mime (some c) = (
      ap (λ n. signed_answer quota_of text sign (new_version text user id root (n + 1) size mime c))
          (max_version-perm user root d),
      Permᴰ.trans
          (perm-append _ (
            perm-map (λ f. if in_lineage user root f then record f { is_current = false } else f)
              d))
          (subst
            (λ n.
              Permᴰ
                (supersede user root ys
                  ++ new_version text user id root (max_version user root xs + 1) size mime c ∷ [])
                (supersede user root ys ++ new_version text user id root (n + 1) size mime c ∷ []))
            (max_version-perm user root d) (Permᴰ.refl _)),
    )

    checked-IsSame :
        (t : File U) (size : ℕ) (mime : String) (q : Quota)
        → IsRow t xs
        → IsSame
            (version_checked quota_of text sign user id (lineage_root_id t) size mime xs q)
            (version_checked quota_of text sign user id (lineage_root_id t) size mime ys q)
    unfolding version_checked
    checked-IsSame t size mime unknown row = (refl, d)
    checked-IsSame t size mime (beyond used limit incoming) row = (refl, d)
    checked-IsSame t size mime within row =
        subst
          (λ m.
            IsSame
              (presign_after quota_of text sign user id (lineage_root_id t) size mime
                (current_version user (lineage_root_id t) xs) xs)
              (presign_after quota_of text sign user id (lineage_root_id t) size mime m ys))
          (sym (current-perm xs ys s d user t row))
          (after-IsSame (lineage_root_id t) size mime (current_version user (lineage_root_id t) xs))

    lineage-IsSame :
        (of : U) (size : ℕ) (mime : String) (m : Option (File U))
        → resolve_owned_file user of xs ≡ m
        → IsSame
            (presign_lineage quota_of text sign user id size mime m xs)
            (presign_lineage quota_of text sign user id size mime m ys)
    unfolding presign_lineage check_quota
    lineage-IsSame of size mime none h = (refl, d)
    lineage-IsSame of size mime (some t) h =
        subst
          (λ n.
            IsSame
              (version_checked quota_of text sign user id (lineage_root_id t) size mime xs
                (check_quota quota_of user size xs))
              (version_checked quota_of text sign user id (lineage_root_id t) size mime ys
                (compare_quota (quota_of user) n size)))
          (used_bytes-perm user d)
          (checked-IsSame t size mime (check_quota quota_of user size xs)
            (found-IsRow user of xs t h).0)

  if-IsSame :
      (b : Bool) (x y x' y' : List (File U) × Answer U)
      → IsSame x x'
      → IsSame y y'
      → IsSame (if b then x else y) (if b then x' else y')
  if-IsSame true x y x' y' h k = h
  if-IsSame false x y x' y' h k = k

  module _ (xs ys : List (File U)) (s : IsSound xs) (d : Permᴰ xs ys) (user : U) where
    version-IsSame :
        (quota_of : U → Option ℕ) (text : U → String) (sign : String → Option String) (of id : U)
        (size : Option ℕ) (mime : String)
        → IsSame
            (presign_version quota_of text sign user of id size mime xs)
            (presign_version quota_of text sign user of id size mime ys)
    unfolding presign_version
    version-IsSame quota_of text sign of id none mime = (refl, d)
    version-IsSame quota_of text sign of id (some size) mime =
        if-IsSame (truthy mime)
          (presign_lineage quota_of text sign user id size mime (resolve_owned_file user of xs) xs)
          _
          (presign_lineage quota_of text sign user id size mime (resolve_owned_file user of ys) ys)
          _
          (subst
            (λ m.
              IsSame
                (presign_lineage quota_of text sign user id size mime
                  (resolve_owned_file user of xs) xs)
                (presign_lineage quota_of text sign user id size mime m ys))
            (sym (resolve-perm xs ys s d user of))
            (lineage-IsSame quota_of text sign xs ys s d user id of size mime
              (resolve_owned_file user of xs) refl))
          (refl, d)

    target-IsSame :
        (root : U) (m : Option (File U))
        → IsSame (restore_target user root xs m) (restore_target user root ys m)
    unfolding restore_target supersede make_current
    target-IsSame root none = (refl, d)
    target-IsSame root (some t) =
        if-IsSame (e.beq (lineage_root_id t) root) _ _ _ _
          (
            refl,
            perm-map (λ f. if e.beq f.id t.id then record f { is_current = true } else f)
                (perm-map
                  (λ f. if in_lineage user root f then record f { is_current = false } else f) d),
          )
          (refl, d)

    found-IsSame :
        (version_id : U) (m : Option (File U))
        → IsSame (restore_found user version_id xs m) (restore_found user version_id ys m)
    unfolding restore_found
    found-IsSame version_id none = (refl, d)
    found-IsSame version_id (some f) =
        subst
          (λ m.
            IsSame
              (restore_target user (lineage_root_id f) xs (resolve_owned_file user version_id xs))
              (restore_target user (lineage_root_id f) ys m))
          (sym (resolve-perm xs ys s d user version_id))
          (target-IsSame (lineage_root_id f) (resolve_owned_file user version_id xs))

    restore-IsSame :
        (id version_id : U)
        → IsSame
            (restore_file_version user id version_id xs)
            (restore_file_version user id version_id ys)
    unfolding restore_file_version
    restore-IsSame id version_id =
        subst
          (λ m.
            IsSame (restore_found user version_id xs (resolve_owned_file user id xs))
              (restore_found user version_id ys m))
          (sym (resolve-perm xs ys s d user id))
          (found-IsSame version_id (resolve_owned_file user id xs))

  -- The order of the rows does not matter: in a table that requests lead to, and in one with the
  -- same rows in another order, presignVersion gives the same answer, and so does
  -- restoreFileVersion, and the tables that they leave have the same rows up to order.
  pub versions-order_free :
      {H : Type 0} (v : Services U) (db : Db U H) (ys : List (File U)) (user of id version_id : U)
      (size : Option ℕ) (mime : String)
      → Reach v db
      → Permᴰ db.files ys
      → IsSame
          (presign_version v.quota_of v.text v.sign user of id size mime db.files)
          (presign_version v.quota_of v.text v.sign user of id size mime ys)
        × IsSame
            (restore_file_version user of version_id db.files)
            (restore_file_version user of version_id ys)
  versions-order_free v db ys user of id version_id size mime r d =
      let s = Reach-IsSound v r in
      (
        version-IsSame db.files ys s d user v.quota_of v.text v.sign of id size mime,
        restore-IsSame db.files ys s d user of version_id,
      )
