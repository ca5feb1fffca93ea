-- ===== src/Server/Files/Trees.antt =====
-- handlers_folder.go: what deleteFolder takes out of the tables of files, of shares and of folders.
use optiflow.Prelude.{
  ℕ, zero, suc, ◌≡◌, refl, sym, subst, ◌⊎◌, inl, inr, false, not, ◌&&◌, Option, none, some, List,
  [], ◌∷◌, ◌++◌, Bool-cases, arith, Eq,
}
use optiflow.Server.Members.{IsRow, filter-IsRow, IsRow-filter, append-IsRow, IsRow-append}
use optiflow.Server.Folders.{Folder, children_of}
use optiflow.Server.Shares.{Share}
use optiflow.Server.Files.{File, lineage_root_id, lineage_files, drop_files, drop_shares, is_id_of}
use optiflow.Server.Files.Tree.{
  Db, current_in, lineages_of, drop_gone, files_in, drop_folder, delete_contents, delete_children,
  finish, delete_tree,
}
use optiflow.Server.Files.Lineages.{IsSound, same_row}
use optiflow.Server.Files.Deleted.{
  any-append, any-some, filter-all, lineage-IsRow, drop_lineages-IsSound,
}

module _ {U : Type 0} ⦃e : Eq U⦄ where
  lineages_of-IsRow :
      (user : U) (files fs : List (File U)) (g : File U)
      → IsRow g (lineages_of user files fs)
      → IsRow g files
  unfolding lineages_of
  lineages_of-IsRow user files [] g m = absurd m
  lineages_of-IsRow user files (c ∷ cs) g m =
      elim (append-IsRow g (lineage_files user (lineage_root_id c) files)
        (lineages_of user files cs) m) [
          | inl k ↦ (lineage-IsRow user (lineage_root_id c) files g k).0
          | inr k ↦ lineages_of-IsRow user files cs g k
        ]

module _ {U H : Type 0} ⦃e : Eq U⦄ where
  -- What a deletion does, with the rows that it hands on for the cleanup: every row of a file is
  -- left or handed on, no share of the user's on a row that is handed on is left, and the rows that
  -- are left are sound.
  pub record Removes (user : U) (db : Db U H) (r : Db U H × List (File U)) : Type 0 where
    pub split : (f : File U) → IsRow f db.files → IsRow f r.0.files ⊎ IsRow f r.1
    pub unshared :
        (s : Share U H)
        → IsRow s r.0.shares
        → IsRow s db.shares × ((is_id_of r.1 s.file_id && e.beq s.user_id user) ≡ false)
    pub sound : IsSound r.0.files

  Removes-then :
      (user : U) (db : Db U H) (r s : Db U H × List (File U))
      → Removes user db r
      → Removes user r.0 s
      → Removes user db (s.0, r.1 ++ s.1)
  Removes-then user db r s a b = record {
    split = λ f m. elim (a.split f m) [
      | inl k ↦ elim (b.split f k) [ inl l ↦ inl l | inr l ↦ inr (IsRow-append f r.1 s.1 (inr l)) ]
      | inr k ↦ inr (IsRow-append f r.1 s.1 (inl k))
    ];
    unshared = λ t m.
        let (k, p) = b.unshared t m in
        let (l, q) = a.unshared t k in
        (l, ground (arith, p, q, any-append (λ g. e.beq t.file_id g.id) r.1 s.1));
    sound = b.sound;
  }

  pub drop_gone_lem :
      (user : U) (gone : List (File U)) (db : Db U H)
      → drop_gone user gone db ≡ record db {
        files = drop_files user gone db.files;
        shares = drop_shares user gone db.shares;
      }
  unfolding drop_gone drop_files drop_shares
  drop_gone_lem user [] db = ground (
    arith,
    filter-all (λ f. not (is_id_of {U = U} [] f.id && e.beq f.user_id user)) db.files (λ f. refl),
    filter-all (λ s. not (is_id_of {U = U} [] s.file_id && e.beq s.user_id user)) db.shares
        (λ s. refl),
  )
  drop_gone_lem user (f ∷ fs) db = refl

  contents-Removes :
      (user id : U) (db : Db U H)
      → IsSound db.files
      → Removes user db
          (drop_folder user id (drop_gone user (files_in user id db) db), files_in user id db)
  unfolding files_in current_in drop_files drop_shares
  contents-Removes user id db s =
      let gone = files_in user id db in
      subst (λ d. Removes user db (drop_folder user id d, gone)) (sym (drop_gone_lem user gone db))
        (record {
          split = λ f m. elim (Bool-cases (is_id_of gone f.id && e.beq f.user_id user)) [
            | inl y ↦
                let (g, k, q) = any-some (λ g. e.beq f.id g.id) gone (ground (arith, y)) in
                let row = lineages_of-IsRow user db.files (current_in user id db.files) g k in
                inr
                  (subst (λ r. IsRow r gone) (sym (same_row db.files f g s.shaped.keyed m row q)) k)
            | inr n ↦ inl (IsRow-filter _ f db.files m (ground (arith, n)))
          ];
          unshared = λ t m. let (k, q) = filter-IsRow _ t db.shares m in (k, ground (arith, q));
          sound =
              drop_lineages-IsSound user db.files (current_in user id db.files)
                (λ c m. (filter-IsRow _ c db.files m).0) s;
        })

  delete_contents-Removes :
      (user id : U) (db : Db U H) (r : Db U H × List (File U))
      → Removes user db r
      → Removes user db (delete_contents user id r)
  unfolding delete_contents
  delete_contents-Removes user id db (now, deleted) a =
      Removes-then user db (now, deleted)
        (drop_folder user id (drop_gone user (files_in user id now) now), files_in user id now) a
        (contents-Removes user id now a.sound)

  -- What a deletion that comes to an end does.
  abbrev pub IsDone : U → Db U H → Option (Db U H × List (File U)) → Type 0
  IsDone user db none = Unit
  IsDone user db (some r) = Removes user db r

  later-IsDone :
      (user : U) (db : Db U H) (r : Db U H × List (File U)) (m : Option (Db U H × List (File U)))
      → Removes user db r
      → IsDone user r.0 m
      → IsDone user db (elim m [ none ↦ none | some s ↦ some (s.0, r.1 ++ s.1) ])
  later-IsDone user db r none a h = tt
  later-IsDone user db r (some s) a h = Removes-then user db r s a h

  children-IsDone :
      (user : U) (delete : U → Db U H → Option (Db U H × List (File U))) (cs : List (Folder U))
      (db : Db U H) (m : Option (Db U H × List (File U)))
      → ((r : Db U H × List (File U))
          → Removes user db r
          → IsDone user r.0 (delete_children delete cs r.0))
      → IsDone user db m
      → IsDone user db (elim m [
        | none ↦ none
        | some r ↦ elim (delete_children delete cs r.0) [
          | none ↦ none
          | some s ↦ some (s.0, r.1 ++ s.1)
        ]
      ])
  children-IsDone user delete cs db none f h = tt
  children-IsDone user delete cs db (some r) f h =
      later-IsDone user db r (delete_children delete cs r.0) h (f r h)

  delete_children-IsDone :
      (user : U) (delete : U → Db U H → Option (Db U H × List (File U)))
      → ((id : U) (db : Db U H) → IsSound db.files → IsDone user db (delete id db))
      → (cs : List (Folder U)) (db : Db U H) → IsSound db.files
      → IsDone user db (delete_children delete cs db)
  unfolding delete_children
  delete_children-IsDone user delete f [] db s = record {
    split = λ g m. inl m;
    unshared = λ t m. (m, refl);
    sound = s;
  }
  delete_children-IsDone user delete f (c ∷ cs) db s =
      children-IsDone user delete cs db (delete c.id db)
        (λ r h. delete_children-IsDone user delete f cs r.0 h.sound) (f c.id db s)

  finish-IsDone :
      (user id : U) (db : Db U H) (m : Option (Db U H × List (File U)))
      → IsDone user db m
      → IsDone user db (finish user id m)
  finish-IsDone user id db none h = tt
  finish-IsDone user id db (some r) h = delete_contents-Removes user id db r h

  pub delete_tree-IsDone :
      (fuel : ℕ) (user id : U) (db : Db U H)
      → IsSound db.files
      → IsDone user db (delete_tree fuel user id db)
  unfolding delete_tree
  delete_tree-IsDone zero user id db s = tt
  delete_tree-IsDone (suc fuel) user id db s = finish-IsDone user id db _ (
      delete_children-IsDone user (delete_tree fuel user)
        (λ c now k. delete_tree-IsDone fuel user c now k) (children_of user id db.folders) db s)
