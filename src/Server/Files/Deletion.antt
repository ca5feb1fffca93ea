-- ===== src/Server/Files/Deletion.antt =====
-- handlers_file.go and handlers_folder.go: what deleteFile and deleteFolder leave.
use optiflow.Prelude.{
  ℕ, ◌≡◌, ◌≢◌, ◌≤◌, any, subst, refl, sym, ap, ◌∙◌, ◌⊎◌, false, not, ◌&&◌, Option, none, some, List,
  filter, All, arith, Eq,
}
use optiflow.Server.Members.{IsRow, All-IsRow}
use optiflow.Server.Folders.{
  Folder, Response, no_content, absent, hanging, resolve_owned_folder, delete_folder, delete_found,
  deleted,
}
use optiflow.Server.Files.{
  File, Answer, lineage_root_id, lineage_files, in_lineage, drop_shares, is_id_of,
  resolve_owned_file, delete_file, delete_lineage,
}
use optiflow.Server.Files.Tree.{Db, delete_tree, answered, delete_found_files, delete_folder_files}
use optiflow.Server.Files.Lineages.{is_of, IsSound, in_lineage-is_of}
use optiflow.Server.Files.Deleted.{
  drop_lineage, filter-cong, any-newest_first, any-filter_test, any-cong,
}
use optiflow.Server.Files.Trees.{IsDone, delete_tree-IsDone}
use optiflow.Server.Files.Refinement.{folders_left, delete_tree-folders}
use optiflow.Server.Files.Found.{found-IsRow}
use optiflow.Server.Folders.Answers
use optiflow.Server.Files.Reached.{Services, Reach, Reach-IsSound}

module _ {U : Type 0} ⦃e : Eq U⦄ where
  lineage_shared :
      (user : U) (f : File U) (files : List (File U)) (x : U)
      → IsSound files
      → IsRow f files
      → is_id_of (lineage_files user (lineage_root_id f) files) x
        ≡ any (λ g. is_of user (lineage_root_id f) g && e.beq x g.id) files
  unfolding lineage_files
  lineage_shared user f files x s m =
      any-newest_first (λ g. e.beq x g.id) (filter (in_lineage user (lineage_root_id f)) files)
      ∙ any-filter_test (λ g. e.beq x g.id) (in_lineage user (lineage_root_id f)) files
      ∙ any-cong _ _ files
          (λ g l. ap (λ b. b && e.beq x g.id) (in_lineage-is_of files user f g s.shaped m l))

module _ {U H : Type 0} ⦃e : Eq U⦄ where
  -- What deleteFolder hands back of its tables, and its answer.
  abbrev pub folders_and_answer : Db U H × List (File U) × Response → List (Folder U) × Response
  folders_and_answer (db, gone, answer) = (db.folders, answer)

  answered_lem :
      (db : Db U H) (m : Option (Db U H × List (File U)))
      → folders_and_answer (answered db m) ≡ deleted db.folders (folders_left m)
  unfolding answered deleted
  answered_lem db none = refl
  answered_lem db (some r) = refl

  found_lem :
      (fuel : ℕ) (user id : U) (db : Db U H) (m : Option (Folder U))
      → folders_and_answer (delete_found_files fuel user id db m)
        ≡ delete_found fuel user id db.folders m
  unfolding delete_found_files delete_found
  found_lem fuel user id db none = refl
  found_lem fuel user id db (some f) =
      answered_lem db (delete_tree fuel user id db)
      ∙ ap (deleted db.folders) (delete_tree-folders fuel user id db)

  -- deleteFolder, whose loop goes on with the tables of files and of shares as the folders below
  -- have left them, does to the table of folders, and answers, what deleteFolder without files and
  -- shares does, on every branch and for any fuel.
  pub delete_folder_refines :
      (fuel : ℕ) (user id : U) (db : Db U H)
      → folders_and_answer (delete_folder_files fuel user id db)
        ≡ delete_folder fuel user id db.folders
  unfolding delete_folder_files delete_folder
  delete_folder_refines fuel user id db =
      found_lem fuel user id db (resolve_owned_folder user id db.folders)

  -- In a table that requests lead to, deleteFile of a file that the user has: exactly the rows of
  -- the user with the root of the file are taken out, and exactly the user's shares of one of them,
  -- and nothing else is changed.
  pub delete_file_effect :
      (v : Services U) (db : Db U H) (user id : U) (f : File U)
      → Reach v db
      → resolve_owned_file user id db.files ≡ some f
      → delete_file user id db.files db.shares ≡ (
        filter (λ g. not (is_of user (lineage_root_id f) g)) db.files,
        filter
            (λ s. not (
              any (λ g. is_of user (lineage_root_id f) g && e.beq s.file_id g.id) db.files
              && e.beq s.user_id user))
            db.shares,
        Answer.no_content,
      )
  unfolding delete_file delete_lineage drop_shares
  delete_file_effect v db user id f r found =
      let s = Reach-IsSound v r in
      let (m, i, u) = found-IsRow user id db.files f found in
      let files =
        drop_lineage user (lineage_root_id f) db.files s.shaped.keyed
        ∙ filter-cong _ _ db.files
            (λ g l. ap not (in_lineage-is_of db.files user f g s.shaped m l)) in
      let shares =
        filter-cong
          (λ t. not (
            is_id_of (lineage_files user (lineage_root_id f) db.files) t.file_id
            && e.beq t.user_id user))
          _ db.shares
          (λ t l.
            ap (λ b. not (b && e.beq t.user_id user))
              (lineage_shared user f db.files t.file_id s m)) in
      ground (arith, found, files, shares)

  abbrev IsHandedOver : U → Db U H → Db U H × List (File U) × Response → Type 0
  IsHandedOver user db (left, gone, answer) =
      (answer ≡ no_content)
      × All (λ g. IsRow g left.files ⊎ IsRow g gone) db.files
      × All (λ s. IsRow s db.shares × ((is_id_of gone s.file_id && e.beq s.user_id user) ≡ false))
          left.shares

  delete_folder_run :
      (fuel : ℕ) (user id : U) (db : Db U H) (f : Folder U)
      → resolve_owned_folder user id db.folders ≡ some f
      → delete_folder_files fuel user id db ≡ answered db (delete_tree fuel user id db)
  unfolding delete_folder_files delete_found_files
  delete_folder_run fuel user id db f found = ap (delete_found_files fuel user id db) found

  handed_over :
      (user id : U) (db : Db U H) (m : Option (Db U H × List (File U)))
      → IsDone user db m
      → (answered db m).2 ≢ hanging
      → IsHandedOver user db (answered db m)
  unfolding answered
  handed_over user id db none h n = absurd (n refl)
  handed_over user id db (some r) h n =
      (refl, All-IsRow _ db.files h.split, All-IsRow _ r.0.shares h.unshared)

  -- In tables that requests lead to, deleteFolder of a folder that the user has comes to an end,
  -- with enough fuel, and answers with no content. Every row of a file is then left, or is among
  -- those whose objects are taken out of the storage; and of the shares, which all were there, none
  -- is left that is the user's and leads to a row taken out.
  pub delete_folder_hands_over :
      (v : Services U) (db : Db U H) (user id : U) (folder : Folder U)
      → Reach v db
      → Answers.Reach db.folders
      → resolve_owned_folder user id db.folders ≡ some folder
      → (n : ℕ) × ((fuel : ℕ)
          → n ≤ fuel
          → ((delete_folder_files fuel user id db).2 ≡ no_content)
            × All
                (λ g.
                  IsRow g (delete_folder_files fuel user id db).0.files
                  ⊎ IsRow g (delete_folder_files fuel user id db).1)
                db.files
            × All
                (λ s.
                  IsRow s db.shares
                  × ((is_id_of (delete_folder_files fuel user id db).1 s.file_id
                        && e.beq s.user_id user)
                      ≡ false))
                (delete_folder_files fuel user id db).0.shares)
  delete_folder_hands_over v db user id folder r q found =
      let (n, ends) = (Answers.Reach-answers db.folders user id "" absent q).3 in
      (
        n,
        λ fuel le.
            let run = delete_folder_run fuel user id db folder found in
            subst (IsHandedOver user db) (sym run) (
              handed_over user id db (delete_tree fuel user id db)
                (delete_tree-IsDone fuel user id db (Reach-IsSound v r))
                (λ k. ends fuel le (
                  sym (ap (λ p. p.1) (delete_folder_refines fuel user id db))
                  ∙ ap (λ p. p.2) run
                  ∙ k))),
      )
