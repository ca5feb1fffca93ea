-- ===== src/Server/Files/Deleted.antt =====
-- handlers_file.go and handlers_folder.go: deletions by the ids of whole lineages.
use optiflow.Prelude.{
  ◌≡◌, refl, sym, ap, ◌∙◌, subst, leb, inl, inr, Bool, true, false, not, ◌&&◌, ◌||◌, List, [], ◌∷◌,
  ◌++◌, filter, any, Bool-cases, arith, Eq,
}
use optiflow.Server.Members.{IsRow, filter-IsRow}
use optiflow.Server.Files.{
  File, lineage_root_id, in_lineage, newest_first, by_version, lineage_files, is_id_of, drop_files,
}
use optiflow.Server.Files.Tree.{lineages_of}
use optiflow.Server.Files.Lineages.{IsKeyed, IsShaped, IsSound, in_lineage-is_of}
use optiflow.Server.Files.Dropping.{IsWhole, filter-IsSound}

module _ {A : Type 0} where
  pub any-append : (p : A → Bool) (xs ys : List A) → any p (xs ++ ys) ≡ (any p xs || any p ys)
  any-append p [] ys = refl
  any-append p (x ∷ xs) ys = ground (arith, any-append p xs ys)

  pub any-none :
      (p : A → Bool) (xs : List A) → ((x : A) → IsRow x xs → p x ≡ false) → any p xs ≡ false
  any-none p [] h = refl
  any-none p (x ∷ xs) h = ground (arith, h x (inl refl), any-none p xs (λ y m. h y (inr m)))

  pub any-cong :
      (p q : A → Bool) (xs : List A) → ((x : A) → IsRow x xs → p x ≡ q x) → any p xs ≡ any q xs
  any-cong p q [] h = refl
  any-cong p q (x ∷ xs) h = ground (arith, h x (inl refl), any-cong p q xs (λ y m. h y (inr m)))

  pub any-filter_test :
      (p q : A → Bool) (xs : List A) → any p (filter q xs) ≡ any (λ x. q x && p x) xs
  any-filter_test p q [] = refl
  any-filter_test p q (x ∷ xs) = ground (arith, any-filter_test p q xs)

  pub any-some :
      (p : A → Bool) (xs : List A) → any p xs ≡ true → (x : A) × IsRow x xs × (p x ≡ true)
  any-some p [] h = absurd (ground (arith, h))
  any-some p (y ∷ ys) h = elim (Bool-cases (p y)) [
    | inl k ↦ (y, inl refl, k)
    | inr k ↦ let (x, m, q) = any-some p ys (ground (arith, h, k)) in (x, inr m, q)
  ]

  pub filter-all : (p : A → Bool) (xs : List A) → ((x : A) → p x ≡ true) → filter p xs ≡ xs
  filter-all p [] h = refl
  filter-all p (x ∷ xs) h = ground (arith, h x, filter-all p xs h)

  pub filter-cong :
      (p q : A → Bool) (xs : List A)
      → ((x : A) → IsRow x xs → p x ≡ q x)
      → filter p xs ≡ filter q xs
  filter-cong p q [] h = refl
  filter-cong p q (x ∷ xs) h =
      ground (arith, h x (inl refl), filter-cong p q xs (λ y m. h y (inr m)))

module _ {U : Type 0} ⦃e : Eq U⦄ where
  any-by_version :
      (p : File U → Bool) (f : File U) (fs : List (File U))
      → any p (by_version f fs) ≡ any p (f ∷ fs)
  unfolding by_version
  any-by_version p f [] = refl
  any-by_version p f (g ∷ gs) = ground (arith, any-by_version p f gs)

  pub any-newest_first :
      (p : File U → Bool) (fs : List (File U)) → any p (newest_first fs) ≡ any p fs
  unfolding newest_first
  any-newest_first p [] = refl
  any-newest_first p (f ∷ fs) =
      any-by_version p f (newest_first fs) ∙ ground (arith, any-newest_first p fs)

  any-filter :
      (q : File U → Bool) (f : File U) (files : List (File U))
      → IsKeyed files
      → IsRow f files
      → any (λ g. e.beq f.id g.id) (filter q files) ≡ q f
  any-filter q f [] k m = absurd m
  any-filter q f (g ∷ gs) (n, k) (inl same) = ground (
    arith,
    ap q same,
    ap (λ r. r.id) same,
    e.beq_iff f.id g.id,
    any-none (λ r. e.beq f.id r.id) (filter q gs)
        (λ r m. ground (arith, n r (filter-IsRow q r gs m).0, ap (λ r. r.id) same)),
  )
  any-filter q f (g ∷ gs) (n, k) (inr m) =
      ground (arith, n f m, e.beq_iff f.id g.id, e.beq_iff g.id f.id, any-filter q f gs k m)

  by_version-IsRow :
      (g f : File U) (fs : List (File U)) → IsRow g (by_version f fs) → IsRow g (f ∷ fs)
  unfolding by_version
  by_version-IsRow g f [] m = m
  by_version-IsRow g f (h ∷ hs) m = elim (Bool-cases (leb h.version f.version)) [
    | inl y ↦ let p : by_version f (h ∷ hs) ≡ f ∷ h ∷ hs = ground (arith, y) in subst (IsRow g) p m
    | inr n ↦
        let p : by_version f (h ∷ hs) ≡ h ∷ by_version f hs = ground (arith, n) in
        elim (subst (IsRow g) p m) [
          | inl same ↦ inr (inl same)
          | inr k ↦ elim (by_version-IsRow g f hs k) [ inl same ↦ inl same | inr l ↦ inr (inr l) ]
        ]
  ]

  pub lineage-IsRow :
      (user root : U) (files : List (File U)) (g : File U)
      → IsRow g (lineage_files user root files)
      → IsRow g files × (in_lineage user root g ≡ true)
  unfolding lineage_files newest_first
  lineage-IsRow user root files g m =
      filter-IsRow (in_lineage user root) g files (sorted (filter (in_lineage user root) files) m)
    where
      sorted : (fs : List (File U)) → IsRow g (newest_first fs) → IsRow g fs
      sorted [] k = k
      sorted (f ∷ fs) k = elim (by_version-IsRow g f (newest_first fs) k) [
        | inl same ↦ inl same
        | inr l ↦ inr (sorted fs l)
      ]

  -- the ids of a lineage are those of its rows
  pub lineage-ids :
      (user root : U) (files : List (File U)) (f : File U)
      → IsKeyed files
      → IsRow f files
      → is_id_of (lineage_files user root files) f.id ≡ in_lineage user root f
  unfolding lineage_files
  lineage-ids user root files f k m =
      any-newest_first (λ g. e.beq f.id g.id) (filter (in_lineage user root) files)
      ∙ any-filter (in_lineage user root) f files k m

  -- A row is in the lineage of one of the rows.
  abbrev pub is_in : U → List (File U) → File U → Bool
  is_in user fs f = any (λ c. in_lineage user (lineage_root_id c) f) fs

  pub lineages-ids :
      (user : U) (files fs : List (File U)) (f : File U)
      → IsKeyed files
      → IsRow f files
      → is_id_of (lineages_of user files fs) f.id ≡ is_in user fs f
  unfolding lineages_of
  lineages-ids user files [] f k m = refl
  lineages-ids user files (c ∷ cs) f k m =
      any-append (λ g. e.beq f.id g.id) (lineage_files user (lineage_root_id c) files)
        (lineages_of user files cs)
      ∙ ground (
        arith,
        lineage-ids user (lineage_root_id c) files f k m,
        lineages-ids user files cs f k m,
      )

  is_in-user :
      (user : U) (fs : List (File U)) (f : File U)
      → (is_in user fs f && e.beq f.user_id user) ≡ is_in user fs f
  is_in-user user [] f = refl
  is_in-user user (c ∷ cs) f = ground (arith, is_in-user user cs f)

  -- the deletion by ids takes the rows of the lineages
  pub drop_lineages :
      (user : U) (files fs : List (File U))
      → IsKeyed files
      → drop_files user (lineages_of user files fs) files
        ≡ filter (λ f. not (is_in user fs f)) files
  unfolding drop_files
  drop_lineages user files fs k =
      filter-cong _ (λ f. not (is_in user fs f)) files
        (λ f m. ground (arith, lineages-ids user files fs f k m, is_in-user user fs f))

  pub drop_lineage :
      (user root : U) (files : List (File U))
      → IsKeyed files
      → drop_files user (lineage_files user root files) files
        ≡ filter (λ f. not (in_lineage user root f)) files
  unfolding drop_files
  drop_lineage user root files k =
      filter-cong _ (λ f. not (in_lineage user root f)) files
        (λ f m. ground (arith, lineage-ids user root files f k m))

  is_in-IsWhole :
      (user : U) (files fs : List (File U))
      → IsShaped files
      → ((c : File U) → IsRow c fs → IsRow c files)
      → IsWhole (λ f. not (is_in user fs f)) files
  is_in-IsWhole user files fs s w f g m l h = ap not (
      any-cong _ _ fs (λ c r. ground (
        arith,
        h,
        in_lineage-is_of files user c f s (w c r) m,
        in_lineage-is_of files user c g s (w c r) l,
        e.beq_iff g.user_id f.user_id,
        e.beq_iff (lineage_root_id g) (lineage_root_id f),
      )))

  -- the rows that deleteFolderTree takes
  pub drop_lineages-IsSound :
      (user : U) (files fs : List (File U))
      → ((c : File U) → IsRow c fs → IsRow c files)
      → IsSound files
      → IsSound (drop_files user (lineages_of user files fs) files)
  drop_lineages-IsSound user files fs w s =
      subst IsSound (sym (drop_lineages user files fs s.shaped.keyed))
        (filter-IsSound _ files (is_in-IsWhole user files fs s.shaped w) s)

  -- and those that deleteFile takes
  pub drop_lineage-IsSound :
      (user : U) (files : List (File U)) (t : File U)
      → IsRow t files
      → IsSound files
      → IsSound (drop_files user (lineage_files user (lineage_root_id t) files) files)
  drop_lineage-IsSound user files t row s =
      subst IsSound (sym (drop_lineage user (lineage_root_id t) files s.shaped.keyed)) (
        filter-IsSound _ files
          (λ f g m l h. ground (
            arith,
            h,
            in_lineage-is_of files user t f s.shaped row m,
            in_lineage-is_of files user t g s.shaped row l,
            e.beq_iff g.user_id f.user_id,
            e.beq_iff (lineage_root_id g) (lineage_root_id f),
          ))
          s)
