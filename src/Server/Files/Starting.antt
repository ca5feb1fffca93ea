-- ===== src/Server/Files/Starting.antt =====
-- handlers.go and handlers_versions.go of backend/cmd/upload-svc: the start of an upload keeps one
-- current version in every lineage.
use optiflow.Prelude.{
  ℕ, ◌+◌, ◌≤◌, ◌≡◌, refl, ap, ◌∙◌, subst, inl, inr, true, ◌&&◌, Option, none, some, List, [], ◌∷◌,
  String, truthy, arith, Eq,
}
use optiflow.Server.Members.{IsRow}
use optiflow.Server.Folders.{Folder, ParentField}
use optiflow.Server.Files.{File, lineage_root_id, in_lineage, resolve_owned_file}
use optiflow.Server.Files.Uploads.{
  Quota, within, unknown, beyond, max_version, presign_in, presign_checked, presign, new_version,
  presign_after, version_checked, presign_lineage, presign_version, current_version, check_quota,
  folder_of,
}
use optiflow.Server.Files.Lineages.{IsShaped, IsSound, in_lineage-is_of}
use optiflow.Server.Files.Shapes.{IsNew, Fits}
use optiflow.Server.Files.Superseding.{add_version-IsSound, append-IsSound}
use optiflow.Server.Files.Found.{found-IsRow, if-IsSound}

module _ {U : Type 0} ⦃e : Eq U⦄ where
  -- a version of the lineage is at most the maximum
  pub max_version-bound :
      (user root : U) (files : List (File U)) (f : File U)
      → IsRow f files
      → in_lineage user root f ≡ true
      → f.version ≤ max_version user root files
  unfolding max_version
  max_version-bound user root [] f m h = absurd m
  max_version-bound user root (g ∷ gs) f (inl same) h =
      ground (arith, ap (in_lineage user root) same, ap (λ r. r.version) same, h)
  max_version-bound user root (g ∷ gs) f (inr m) h =
      ground (arith, max_version-bound user root gs f m h)

  new_version-Fits :
      (text : U → String) (id : U) (size : ℕ) (mime : String) (files : List (File U))
      (t current : File U)
      → IsRow t files
      → IsNew id files
      → IsShaped files
      → Fits files (
          new_version text t.user_id id
            (lineage_root_id t)
            (max_version t.user_id (lineage_root_id t) files + 1)
            size
            mime
            current)
  unfolding new_version
  new_version-Fits text id size mime files t current here new s = record {
    new = new;
    own = λ q. absurd (ground (arith, q, (new t here).1, e.beq_iff (lineage_root_id t) id));
    roots = λ g m q. s.flat t g here m q;
    later = λ g m h. ground (
      arith,
      max_version-bound t.user_id (lineage_root_id t) files g m
          (in_lineage-is_of files t.user_id t g s here m ∙ h),
    );
  }

  module _ (files : List (File U)) (s : IsSound files) where
    module _ (quota_of : U → Option ℕ) (text : U → String) (sign : String → Option String)
        (user id : U) (new : IsNew id files) where
      presign_checked-IsSound :
          (name : String) (size : ℕ) (mime : String) (folder : Option (Option U)) (q : Quota)
          → IsSound (presign_checked quota_of text sign user id name size mime folder files q).0
      unfolding presign_checked presign_in
      presign_checked-IsSound name size mime none within = s
      presign_checked-IsSound name size mime (some folder) within =
          append-IsSound files _ new refl refl s
      presign_checked-IsSound name size mime folder unknown = s
      presign_checked-IsSound name size mime folder (beyond used quota incoming) = s

      pub presign-IsSound :
          (folders : List (Folder U)) (name : String) (size : Option ℕ) (mime : String)
          (folder : ParentField U)
          → IsSound (presign quota_of text sign user id folders name size mime folder files).0
      unfolding presign
      presign-IsSound folders name none mime folder = s
      presign-IsSound folders name (some size) mime folder =
          if-IsSound (truthy name && truthy mime) _ _
            (λ h.
              presign_checked-IsSound name size mime
                (folder_of quota_of text sign user folders folder)
                (check_quota quota_of user size files))
            (λ h. s)

      presign_after-IsSound :
          (size : ℕ) (mime : String) (t : File U) (m : Option (File U))
          → IsRow t files
          → t.user_id ≡ user
          → IsSound
              (presign_after quota_of text sign user id (lineage_root_id t) size mime m files).0
      unfolding presign_after new_version
      presign_after-IsSound size mime t none here u = s
      presign_after-IsSound size mime t (some current) here u =
          add_version-IsSound files t _ here refl refl
            (subst
              (λ v. Fits files (
                new_version text v id (lineage_root_id t)
                  (max_version v (lineage_root_id t) files + 1) size mime current))
              u (new_version-Fits text id size mime files t current here new s.shaped))
            s

      version_checked-IsSound :
          (size : ℕ) (mime : String) (t : File U) (q : Quota)
          → IsRow t files
          → t.user_id ≡ user
          → IsSound
              (version_checked quota_of text sign user id (lineage_root_id t) size mime files q).0
      unfolding version_checked
      version_checked-IsSound size mime t unknown here u = s
      version_checked-IsSound size mime t (beyond used quota incoming) here u = s
      version_checked-IsSound size mime t within here u =
          presign_after-IsSound size mime t (current_version user (lineage_root_id t) files) here u

      presign_lineage-IsSound :
          (of : U) (size : ℕ) (mime : String) (m : Option (File U))
          → resolve_owned_file user of files ≡ m
          → IsSound (presign_lineage quota_of text sign user id size mime m files).0
      unfolding presign_lineage
      presign_lineage-IsSound of size mime none h = s
      presign_lineage-IsSound of size mime (some t) h =
          let (here, i, u) = found-IsRow user of files t h in
          version_checked-IsSound size mime t (check_quota quota_of user size files) here u

      pub presign_version-IsSound :
          (of : U) (size : Option ℕ) (mime : String)
          → IsSound (presign_version quota_of text sign user of id size mime files).0
      unfolding presign_version
      presign_version-IsSound of none mime = s
      presign_version-IsSound of (some size) mime =
          if-IsSound (truthy mime) _ _
            (λ h. presign_lineage-IsSound of size mime (resolve_owned_file user of files) refl)
            (λ h. s)
