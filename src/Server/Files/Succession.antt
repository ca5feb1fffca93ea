-- ===== src/Server/Files/Succession.antt =====
-- handlers_versions.go of backend/cmd/upload-svc: presignVersion puts a new version on top.
use optiflow.Prelude.{
  ℕ, ◌+◌, ◌≡◌, refl, ap, inl, inr, true, false, ◌&&◌, none, some, concat, List, [], ◌∷◌, ◌++◌,
  String, map, truthy, ltb, Bool-cases, if◌then◌else◌, All, arith, Eq,
}
use optiflow.Server.Members.{IsRow, All-IsRow, map-cong}
use optiflow.Server.Counting.{none-count, count-some}
use optiflow.Server.Files.{
  File, pending, refused, upload_to, lineage_root_id, in_lineage, resolve_owned_file, supersede,
}
use optiflow.Server.Files.Uploads.{
  within, check_quota, current_version, max_version, new_version, add_version, presign_after,
  version_checked, presign_lineage, presign_version,
}
use optiflow.Server.Files.Tree.{Db}
use optiflow.Server.Files.Lineages.{is_of, is_current_of, IsSound, in_lineage-is_of}
use optiflow.Server.Files.Found.{found-IsRow}
use optiflow.Server.Files.Starting.{max_version-bound}
use optiflow.Server.Files.Reached.{Services, Reach, Reach-IsSound}

module _ {U : Type 0} ⦃e : Eq U⦄ where
  -- a current row of the lineage is found if there is one
  pub current_version-finds :
      (user root : U) (files : List (File U)) (g : File U)
      → IsRow g files
      → (in_lineage user root g && g.is_current) ≡ true
      → (c : File U) × (current_version user root files ≡ some c)
        × IsRow c files
        × ((in_lineage user root c && c.is_current) ≡ true)
  unfolding current_version
  current_version-finds user root [] g m h = absurd m
  current_version-finds user root (f ∷ fs) g m h =
      elim (Bool-cases (in_lineage user root f && f.is_current)) [
        | inl y ↦ (f, ground (arith, y), inl refl, y)
        | inr n ↦ elim m [
          | inl same ↦
              absurd
                (ground (arith, n, h, ap (in_lineage user root) same, ap (λ r. r.is_current) same))
          | inr k ↦
              let (c, q, l, t) = current_version-finds user root fs g k h in
              (c, ground (arith, n, q), inr l, t)
        ]
      ]

  -- a row after its lineage has been superseded
  abbrev pub superseded : U → U → File U → File U
  superseded user root g = record g {
    is_current = if is_of user root g then false else g.is_current;
  }

  module _ (files : List (File U)) (user of : U) (t : File U) (s : IsSound files)
      (found : resolve_owned_file user of files ≡ some t) where
    supersede_lem :
        supersede user (lineage_root_id t) files ≡ map (superseded user (lineage_root_id t)) files
    unfolding supersede
    supersede_lem = map-cong _ _ files (λ g m.
        ground
          (arith, in_lineage-is_of files user t g s.shaped (found-IsRow user of files t found).0 m))

    pub current_found :
        (c : File U) × (current_version user (lineage_root_id t) files ≡ some c)
        × IsRow c files
        × (is_current_of user (lineage_root_id t) c ≡ true)
    current_found =
        let (m, i, u) = found-IsRow user of files t found in
        elim (s.single user (lineage_root_id t)) [
          | inl z ↦ absurd (
              ground (
                arith,
                none-count (is_of user (lineage_root_id t)) files z t m,
                u,
                e.beq_iff t.user_id user,
                e.beq_iff (lineage_root_id t) (lineage_root_id t),
              ))
          | inr one ↦
              let (g, l, h) =
                count-some (is_current_of user (lineage_root_id t)) files (ground (arith, one)) in
              let (c, q, k, w) =
                current_version-finds user (lineage_root_id t) files g l
                  (ground (arith, h, in_lineage-is_of files user t g s.shaped m l)) in
              (c, q, k, ground (arith, w, in_lineage-is_of files user t c s.shaped m k))
        ]

  -- A row of the user's, waiting for its object, that is a version of the lineage with the given
  -- root and the current one, under the name and in the folder of the row `c`.
  abbrev pub IsOnTop : (U → String) → U → U → U → ℕ → String → File U → File U → Type 0
  IsOnTop text user id root size mime c n =
      (n.id ≡ id)
      × (n.name ≡ c.name)
      × (n.user_id ≡ user)
      × (n.folder_id ≡ c.folder_id)
      × (n.storage_key
          ≡ concat "users/"
              (concat (text user) (concat "/" (concat (text id) (concat "/" c.name)))))
      × (n.size_bytes ≡ size)
      × (n.mime_type ≡ mime)
      × (n.status ≡ pending)
      × (n.thumbnail_key ≡ none)
      × (n.playlist_key ≡ none)
      × (n.parent_id ≡ some root)
      × (n.is_current ≡ true)

  pub presign_version_effect :
      {H : Type 0} (v : Services U) (db : Db U H) (user of id : U) (size : ℕ) (mime : String)
      (t : File U)
      → Reach v db
      → resolve_owned_file user of db.files ≡ some t
      → truthy mime ≡ true
      → check_quota v.quota_of user size db.files ≡ within
      → (c : File U) × (n : File U) × IsRow c db.files
        × (is_current_of user (lineage_root_id t) c ≡ true)
        × IsOnTop v.text user id (lineage_root_id t) size mime c n
        × (n.version ≡ max_version user (lineage_root_id t) db.files + 1)
        × (presign_version v.quota_of v.text v.sign user of id (some size) mime db.files ≡ (
          map (superseded user (lineage_root_id t)) db.files ++ n ∷ [],
          elim (v.sign n.storage_key) [
            | none ↦ refused 500 "could not start upload"
            | some url ↦ upload_to id url
          ],
        ))
        × All
            (λ g.
              (is_of user (lineage_root_id t) g
                && ltb (max_version user (lineage_root_id t) db.files) g.version)
              ≡ false)
            db.files
  unfolding presign_version presign_lineage version_checked presign_after add_version new_version
  presign_version_effect v db user of id size mime t r found typed fits =
      let s = Reach-IsSound v r in
      let (m, i, u) = found-IsRow user of db.files t found in
      let root = lineage_root_id t in
      let (c, q, k, w) = current_found db.files user of t s found in
      (
        c,
        new_version v.text user id root (max_version user root db.files + 1) size mime c,
        k,
        w,
        (refl, refl, refl, refl, refl, refl, refl, refl, refl, refl, refl, refl),
        refl,
        ground (arith, found, typed, fits, q, supersede_lem db.files user of t s found),
        All-IsRow _ db.files (λ g l. ground (
          arith,
          max_version-bound user (lineage_root_id t) db.files g l,
          in_lineage-is_of db.files user t g s.shaped m l,
        )),
      )
