-- ===== src/Server/Files/Race.antt =====
-- handlers.go and handlers_versions.go of backend/cmd/upload-svc: `complete` reads a row and saves it
-- whole, and presignVersion reads the lineage before its transaction, so requests can interleave.
use optiflow.Prelude.{
  ℕ, ◌≡◌, ap, ◌∙◌, inl, inr, true, false, Option, some, List, [], ◌∷◌, ◌++◌, String, map, truthy,
  Bool-cases, if◌then◌else◌, arith, Eq,
}
use optiflow.Server.Members.{IsRow, map-map}
use optiflow.Server.Counting.{count, count-append, count-map}
use optiflow.Server.Files.{File, row, lineage_root_id, resolve_owned_file, save_file}
use optiflow.Server.Files.Uploads.{within, check_quota, presign_version}
use optiflow.Server.Files.Completion.{
  completed, complete, complete_found, complete_stored, task_of, is_pending,
}
use optiflow.Server.Files.Tree.{Db}
use optiflow.Server.Files.Lineages.{is_current_of, IsSound, count-id}
use optiflow.Server.Files.Shapes.{IsNew}
use optiflow.Server.Files.Found.{found-IsRow}
use optiflow.Server.Files.Succession.{superseded, presign_version_effect}
use optiflow.Server.Files.Reached.{Services, Reach, Reach-IsSound}

module _ {U : Type 0} ⦃e : Eq U⦄ where
  save-append :
      (g n : File U) (files : List (File U))
      → e.beq n.id g.id ≡ false
      → save_file g (files ++ n ∷ []) ≡ save_file g files ++ n ∷ []
  unfolding save_file
  save-append g n [] h = ground (arith, h)
  save-append g n (f ∷ fs) h = ground (arith, save-append g n fs h)

  module _ (files : List (File U)) (user : U) (f : File U) (s : IsSound files) (m : IsRow f files)
      (owner : f.user_id ≡ user) (current : f.is_current ≡ true) (size : ℕ) where
    -- a row as the save of another row leaves it, after the lineage was superseded
    overwritten :
        (g : File U)
        → IsRow g files
        → is_current_of user
            (lineage_root_id f)
            (if e.beq g.id f.id then completed f size else superseded user (lineage_root_id f) g)
          ≡ e.beq g.id f.id
    overwritten g l = elim (Bool-cases (e.beq g.id f.id)) [
      | inl y ↦ ground (
        arith,
        y,
        current,
        owner,
        e.beq_iff f.user_id user,
        e.beq_iff (lineage_root_id f) (lineage_root_id f),
      )
      | inr n ↦ ground (arith, n)
    ]

    two_current :
        (n : File U)
        → is_current_of user (lineage_root_id f) n ≡ true
        → e.beq n.id f.id ≡ false
        → count (is_current_of user (lineage_root_id f)) (
            save_file
              (completed f size)
              (map (superseded user (lineage_root_id f)) files ++ n ∷ []))
          ≡ 2
    unfolding save_file
    two_current n c d =
        ap (count (is_current_of user (lineage_root_id f))) (
          save-append (completed f size) n (map (superseded user (lineage_root_id f)) files) d
          ∙ ap (λ r. r ++ n ∷ []) (map-map _ _ files))
        ∙ count-append (is_current_of user (lineage_root_id f)) _ (n ∷ [])
        ∙ ground (
          arith,
          c,
          count-map (is_current_of user (lineage_root_id f)) (λ g. e.beq g.id f.id)
              (λ g.
                if e.beq g.id f.id then completed f size else superseded user (lineage_root_id f) g)
              files overwritten,
          count-id files f s.shaped.keyed m,
        )

  complete_alone :
      (stat : String → Option ℕ) (user id : U) (files : List (File U)) (f : File U) (size : ℕ)
      → resolve_owned_file user id files ≡ some f
      → is_pending f.status ≡ true
      → stat f.storage_key ≡ some size
      → complete stat user id files ≡ (
        save_file (completed f size) files,
        row (completed f size),
        task_of f.id f.storage_key f.mime_type,
      )
  unfolding complete complete_found complete_stored
  complete_alone stat user id files f size found waits here = ground (arith, found, waits, here)

  -- In a table that requests lead to, a user's pending current row whose object is there: `complete`
  -- saves the row that it has read, with its flag. If a presignVersion of the same lineage, with a
  -- new id and within the quota, runs after `complete` has read the row and before it saves it, the
  -- table has two current rows of the lineage afterwards.
  pub complete_race :
      {H : Type 0} (v : Services U) (db : Db U H) (user of id : U) (want size : ℕ) (mime : String)
      (f : File U)
      → Reach v db
      → resolve_owned_file user of db.files ≡ some f
      → is_pending f.status ≡ true
      → f.is_current ≡ true
      → v.stat f.storage_key ≡ some size
      → truthy mime ≡ true
      → check_quota v.quota_of user want db.files ≡ within
      → IsNew id db.files
      → (complete v.stat user of db.files ≡ (
        save_file (completed f size) db.files,
        row (completed f size),
        task_of f.id f.storage_key f.mime_type,
      ))
        × (count (is_current_of user (lineage_root_id f)) (
              save_file
                (completed f size)
                (presign_version v.quota_of v.text v.sign user of id (some want) mime db.files).0)
            ≡ 2)
  complete_race v db user of id want size mime f r found waits current here typed fits new =
      let s = Reach-IsSound v r in
      let (m, i, u) = found-IsRow user of db.files f found in
      let (c, n, k, w, on_top, version, q, top) =
        presign_version_effect v db user of id want mime f r found typed fits in
      (
        complete_alone v.stat user of db.files f size found waits here,
        ap (λ p. count (is_current_of user (lineage_root_id f)) (save_file (completed f size) p.0))
              q
            ∙ two_current db.files user f s m u current size n
                (ground (
                  arith,
                  on_top,
                  e.beq_iff n.user_id user,
                  e.beq_iff (lineage_root_id f) (lineage_root_id f),
                ))
                (ground (arith, on_top, (new f m).0, e.beq_iff f.id id, e.beq_iff n.id f.id)),
      )
