-- ===== src/Server/Files/Shapes.antt =====
-- models/file.go: what keeps the ids, the roots and the version numbers of a table of files right:
-- an update of other columns, a deletion, and a new row.
use optiflow.Prelude.{
  ◌<◌, ◌≡◌, refl, sym, ap, ◌∙◌, inl, inr, Bool, true, false, none, List, [], ◌∷◌, map, filter,
  arith, Eq, if◌then◌else◌,
}
use optiflow.Server.Members.{IsRow, map-IsRow, filter-IsRow}
use optiflow.Server.Files.{File, lineage_root_id}
use optiflow.Server.Files.Lineages.{is_of, IsKeyed, IsShaped}

module _ {U : Type 0} ⦃e : Eq U⦄ where
  -- An update that keeps the id, the user, the parent and the version of a row.
  abbrev pub IsUpdate : File U → File U → Type 0
  IsUpdate f g =
      (g.id ≡ f.id)
      × (g.user_id ≡ f.user_id)
      × (g.parent_id ≡ f.parent_id)
      × (g.version ≡ f.version)

  pub update-root : (f g : File U) → IsUpdate f g → lineage_root_id g ≡ lineage_root_id f
  update-root f g (i, u, p, v) = ground (arith, i, p)

  pub update-is_of :
      (user root : U) (f g : File U) → IsUpdate f g → is_of user root g ≡ is_of user root f
  update-is_of user root f g (i, u, p, v) = ground (arith, u, update-root f g (i, u, p, v))

  module _ (h : File U → File U) where
    map-IsKeyed :
        (files : List (File U))
        → ((f : File U) → IsRow f files → (h f).id ≡ f.id)
        → IsKeyed files
        → IsKeyed (map h files)
    map-IsKeyed [] q k = tt
    map-IsKeyed (f ∷ fs) q (n, k) = (
      λ g m.
          let (s, l, same) = map-IsRow h g fs m in
          ground (arith, n s l, q f (inl refl), q s (inr l), same),
      map-IsKeyed fs (λ s l. q s (inr l)) k,
    )

    pub map-IsShaped :
        (files : List (File U))
        → ((f : File U) → IsRow f files → IsUpdate f (h f))
        → IsShaped files
        → IsShaped (map h files)
    map-IsShaped files q s = record {
      keyed = map-IsKeyed files (λ f m. (q f m).0) s.keyed;
      flat = λ f g m l r.
          let (f', m', x) = map-IsRow h f files m in
          let (g', l', y) = map-IsRow h g files l in
          let root = update-root f' (h f') (q f' m') in
          let (i, u, p, v) = q g' l' in
          ap (λ t. t.parent_id) y
          ∙ p
          ∙ s.flat f' g' m' l' (sym i ∙ ap (λ t. t.id) (sym y) ∙ r ∙ ap lineage_root_id x ∙ root);
      numbered = λ f g m l r w.
          let (f', m', x) = map-IsRow h f files m in
          let (g', l', y) = map-IsRow h g files l in
          let (i, u, p, v) = q f' m' in
          let (i', u', p', v') = q g' l' in
          ap (λ t. t.id) y
          ∙ i'
          ∙ s.numbered f' g' m' l'
              (ground (
                arith,
                r,
                x,
                y,
                u,
                u',
                update-root f' (h f') (q f' m'),
                update-root g' (h g') (q g' l'),
              ))
              (sym v' ∙ ap (λ t. t.version) (sym y) ∙ w ∙ ap (λ t. t.version) x ∙ v)
          ∙ sym i
          ∙ ap (λ t. t.id) (sym x);
    }

  kept-IsKeyed :
      (b : Bool) (f : File U) (rest : List (File U))
      → IsKeyed (f ∷ rest)
      → IsKeyed (if b then f ∷ rest else rest)
  kept-IsKeyed true f rest k = k
  kept-IsKeyed false f rest k = k.1

  filter-IsKeyed :
      (keep : File U → Bool) (files : List (File U)) → IsKeyed files → IsKeyed (filter keep files)
  filter-IsKeyed keep [] k = tt
  filter-IsKeyed keep (f ∷ fs) (n, k) =
      kept-IsKeyed (keep f) f (filter keep fs)
        (λ g m. n g (filter-IsRow keep g fs m).0, filter-IsKeyed keep fs k)

  pub filter-IsShaped :
      (keep : File U → Bool) (files : List (File U)) → IsShaped files → IsShaped (filter keep files)
  filter-IsShaped keep files s = record {
    keyed = filter-IsKeyed keep files s.keyed;
    flat = λ f g m l. s.flat f g (filter-IsRow keep f files m).0 (filter-IsRow keep g files l).0;
    numbered =
        λ f g m l. s.numbered f g (filter-IsRow keep f files m).0 (filter-IsRow keep g files l).0;
  }

  -- An id that no row has, nor points at.
  abbrev pub IsNew : U → List (File U) → Type 0
  IsNew id files =
      (f : File U)
      → IsRow f files
      → (e.beq f.id id ≡ false) × (e.beq (lineage_root_id f) id ≡ false)

  -- What makes a new row fit: its id is new, its root has no parent, and its version is above those
  -- of its lineage.
  pub record Fits (files : List (File U)) (n : File U) : Type 0 where
    pub new : IsNew n.id files
    pub own : n.id ≡ lineage_root_id n → n.parent_id ≡ none
    pub roots : (g : File U) → IsRow g files → g.id ≡ lineage_root_id n → g.parent_id ≡ none
    pub later :
        (g : File U)
        → IsRow g files
        → is_of n.user_id (lineage_root_id n) g ≡ true
        → g.version < n.version

  pub map-Fits :
      (h : File U → File U) (files : List (File U)) (n : File U)
      → ((f : File U) → IsRow f files → IsUpdate f (h f))
      → Fits files n
      → Fits (map h files) n
  map-Fits h files n q fits = record {
    new = λ g m.
        let (f, l, same) = map-IsRow h g files m in
        ground (arith, same, fits.new f l, (q f l).0, update-root f (h f) (q f l));
    own = fits.own;
    roots = λ g m r.
        let (f, l, same) = map-IsRow h g files m in
        let (i, u, p, v) = q f l in
        ap (λ t. t.parent_id) same ∙ p ∙ fits.roots f l (sym i ∙ ap (λ t. t.id) (sym same) ∙ r);
    later = λ g m r.
        let (f, l, same) = map-IsRow h g files m in
        let (i, u, p, v) = q f l in
        ground (
          arith,
          same,
          r,
          fits.later f l,
          v,
          update-is_of n.user_id (lineage_root_id n) f (h f) (q f l),
        );
  }
