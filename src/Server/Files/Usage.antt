-- ===== src/Server/Files/Usage.antt =====
-- backend/cmd/upload-svc/handlers.go, checkQuota: what an upload may add to the bytes of a user.
use optiflow.Prelude.{
  ℕ, ◌+◌, ◌^◌, ◌≤◌, ◌<◌, ◌≡◌, refl, ◌⊎◌, inl, inr, ◌↔◌, ◌&&◌, Option, none, some, List, [], ◌∷◌,
  ◌++◌, String, truthy, if◌then◌else◌, arith, Eq, if_lem,
}
use optiflow.Server.Folders.{Folder, ParentField}
use optiflow.Server.Files.{File, Answer, resolve_owned_file, supersede, pending, lineage_root_id}
use optiflow.Server.Files.Uploads.{
  Quota, within, unknown, beyond, used_bytes, check_quota, compare_quota, presign_in,
  presign_checked, presign, presign_after, version_checked, presign_lineage, presign_version,
  new_file, new_version, add_version, max_version, current_version, folder_of,
}

module _ {U : Type 0} ⦃e : Eq U⦄ where
  -- For a user with a quota, and bytes, quota and request below 2 ^ 63, as an int64 holds them:
  -- checkQuota lets an upload through if and only if the bytes with it are at most the quota, or
  -- their sum is no int64.
  pub check_quota_iff :
      (quota_of : U → Option ℕ) (user : U) (quota incoming : ℕ) (files : List (File U))
      → quota_of user ≡ some quota
      → quota < 2 ^ 63
      → incoming < 2 ^ 63
      → used_bytes user files < 2 ^ 63
      → (check_quota quota_of user incoming files ≡ within)
        ↔ ((used_bytes user files + incoming ≤ quota) ⊎ (2 ^ 63 ≤ used_bytes user files + incoming))
  unfolding check_quota compare_quota
  check_quota_iff quota_of user quota incoming files q a b c =
      (λ h. ground (arith, q, h, a, b, c), λ h. ground (arith, q, h, a, b, c))

  pub used_bytes-append :
      (user : U) (files : List (File U)) (n : File U)
      → used_bytes user (files ++ n ∷ [])
        ≡ used_bytes user files + (if e.beq n.user_id user then n.size_bytes else 0)
  unfolding used_bytes
  used_bytes-append user [] n = ground arith
  used_bytes-append user (f ∷ fs) n = ground (arith, used_bytes-append user fs n)

  used_bytes-supersede :
      (user other root : U) (files : List (File U))
      → used_bytes user (supersede other root files) ≡ used_bytes user files
  unfolding used_bytes supersede
  used_bytes-supersede user other root [] = refl
  used_bytes-supersede user other root (f ∷ fs) =
      ground (arith, used_bytes-supersede user other root fs)

  module _ (quota_of : U → Option ℕ) (text : U → String) (sign : String → Option String)
      (user id : U) (quota : ℕ) (known : quota_of user ≡ some quota) (bounded : quota < 2 ^ 63)
      (size : ℕ) (files : List (File U)) (small : used_bytes user files + size < 2 ^ 63)
      (kept : used_bytes user files ≤ quota) where
    fits : check_quota quota_of user size files ≡ within → used_bytes user files + size ≤ quota
    fits h =
        elim ((check_quota_iff quota_of user quota size files known bounded (omega (arith, small))
            (omega (arith, small))).0
          h) [ inl le ↦ le | inr over ↦ absurd (omega (arith, small, over)) ]

    presign_in-within :
        (name mime : String) (folder : Option (Option U))
        → used_bytes user files + size ≤ quota
        → used_bytes user (presign_in quota_of text sign user id name size mime folder files).0
          ≤ quota
    unfolding presign_in
    presign_in-within name mime none le = kept
    presign_in-within name mime (some folder) le = ground (
      arith,
      le,
      used_bytes-append user files (new_file text user id name size mime folder pending),
      e.beq_iff user user,
    )

    presign_checked-within :
        (name mime : String) (folder : Option (Option U)) (q : Quota)
        → check_quota quota_of user size files ≡ q
        → used_bytes user
            (presign_checked quota_of text sign user id name size mime folder files q).0
          ≤ quota
    unfolding presign_checked
    presign_checked-within name mime folder within h = presign_in-within name mime folder (fits h)
    presign_checked-within name mime folder unknown h = kept
    presign_checked-within name mime folder (beyond used limit incoming) h = kept

    presign_after-within :
        (root : U) (mime : String) (m : Option (File U))
        → used_bytes user files + size ≤ quota
        → used_bytes user (presign_after quota_of text sign user id root size mime m files).0
          ≤ quota
    unfolding presign_after add_version new_version
    presign_after-within root mime none le = kept
    presign_after-within root mime (some c) le = ground (
      arith,
      le,
      used_bytes-append user (supersede user root files)
          (new_version text user id root (max_version user root files + 1) size mime c),
      used_bytes-supersede user user root files,
      e.beq_iff user user,
    )

    version_checked-within :
        (root : U) (mime : String) (q : Quota)
        → check_quota quota_of user size files ≡ q
        → used_bytes user (version_checked quota_of text sign user id root size mime files q).0
          ≤ quota
    unfolding version_checked
    version_checked-within root mime within h =
        presign_after-within root mime (current_version user root files) (fits h)
    version_checked-within root mime unknown h = kept
    version_checked-within root mime (beyond used limit incoming) h = kept

    presign_lineage-within :
        (mime : String) (m : Option (File U))
        → used_bytes user (presign_lineage quota_of text sign user id size mime m files).0 ≤ quota
    unfolding presign_lineage
    presign_lineage-within mime none = kept
    presign_lineage-within mime (some t) =
        version_checked-within (lineage_root_id t) mime (check_quota quota_of user size files) refl

    abbrev IsWithin : List (File U) × Answer U → Type 0
    IsWithin r = used_bytes user r.0 ≤ quota

    -- For a user whose bytes are within a quota below 2 ^ 63, and a request whose size added to them
    -- is below 2 ^ 63: whatever presign and presignVersion answer, the bytes that the rows of the
    -- user declare are within the quota afterwards.
    pub presign_within_quota :
        (folders : List (Folder U)) (name mime : String) (folder : ParentField U) (of : U)
        → (used_bytes user
              (presign quota_of text sign user id folders name (some size) mime folder files).0
            ≤ quota)
          × (used_bytes user
                (presign_version quota_of text sign user of id (some size) mime files).0
              ≤ quota)
    unfolding presign presign_version
    presign_within_quota folders name mime folder of = (
      if_lem IsWithin (truthy name && truthy mime) _ _
          (λ h.
            presign_checked-within name mime (folder_of quota_of text sign user folders folder)
              (check_quota quota_of user size files) refl)
          (λ h. kept),
      if_lem IsWithin (truthy mime) _ _
          (λ h. presign_lineage-within mime (resolve_owned_file user of files)) (λ h. kept),
    )
