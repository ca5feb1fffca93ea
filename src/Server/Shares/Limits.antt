-- ===== src/Server/Shares/Limits.antt =====
-- shareDownloadURL: a link's limit, over any visits that come one after another.
use optiflow.Prelude.{
  ℕ, suc, ◌+◌, ◌-◌, ◌≡◌, refl, ◌∙◌, ap, ◌≤◌, Bool, true, false, Option, none, some, List, [], ◌∷◌,
  arith, String, str_eq, if◌then◌else◌, Eq, Bool-cases, inl, inr, sym, subst, ◌&&◌, ◌<◌, str_eq_iff,
}
use optiflow.Server.Shares.{
  pos, Share, StoredFile, Download, url, refused, first_share, active, resolve_active_share, admit,
  settle, count_download, share_download_url,
}
use optiflow.Server.Shares.Rows.{first_share-count_download}

-- One request of a visitor: its time, the token in its path, the password in its body.
pub record Visit : Type 0 where
  pub at : ℕ
  pub token : String
  pub body : Option String

abbrev pub is_url : Download → Bool
is_url (url u) = true
is_url (refused status message) = false

module _ {U H : Type 0} ⦃e : Eq U⦄ (verify : H → String → Bool) (file_of : U → Option StoredFile)
    (sign : String → Option String) where
  abbrev answer : Visit → List (Share U H) → List (Share U H) × Download
  answer v db = share_download_url verify file_of sign v.at v.token v.body db

  -- How many of the visits get a URL for a token.
  unfoldable pub urls : String → List Visit → List (Share U H) → ℕ
  urls token [] db = 0
  urls token (v ∷ vs) db =
      let rest = urls token vs (answer v db).0 in
      if str_eq v.token token && is_url (answer v db).1 then suc rest else rest

  -- The token's link, with the limit n, has been used c times.
  record Used (token : String) (n c : ℕ) (db : List (Share U H)) : Type 0 where
    row : Share U H
    found : first_share token db ≡ some row
    limit : row.max_downloads ≡ some (pos n)
    count : row.download_count ≡ c

  counted-Used :
      (token : String) (n c : ℕ) (id : U) (db : List (Share U H)) (u : Used token n c db) (b : Bool)
      → e.beq u.row.id id ≡ b
      → Used token n (if b then c + 1 else c) (count_download id db)
  counted-Used token n c id db u true q = record {
    row = record u.row { download_count = u.row.download_count + 1 };
    found = first_share-count_download id token db ∙ ground (arith, u.found, q);
    limit = u.limit;
    count = ap (λ k. k + 1) u.count;
  }
  counted-Used token n c id db u false q = record {
    row = u.row;
    found = first_share-count_download id token db ∙ ground (arith, u.found, q);
    limit = u.limit;
    count = u.count;
  }

  module _ (token : String) (n c : ℕ) (db : List (Share U H)) (u : Used token n c db) where
    settle-Used :
        (m : Option U) (d : Download) → (c' : ℕ) × (c ≤ c') × Used token n c' (settle m d db)
    unfolding settle
    settle-Used (some id) (url t) = elim (Bool-cases (e.beq u.row.id id)) [
      | inl q ↦ (c + 1, omega arith, counted-Used token n c id db u true q)
      | inr q ↦ (c, omega arith, counted-Used token n c id db u false q)
    ]
    settle-Used (some id) (refused status message) = (c, omega arith, u)
    settle-Used none d = (c, omega arith, u)

    -- what a URL for the token says of its link
    granted :
        (now : ℕ) (body : Option String)
        → is_url (share_download_url verify file_of sign now token body db).1 ≡ true
        → (c < n)
          × ((share_download_url verify file_of sign now token body db).0
              ≡ count_download u.row.id db)
    unfolding share_download_url settle admit resolve_active_share active
    granted now body q = ground (arith, u.found, u.limit, u.count)

    granted-Used :
        (v : Visit)
        → (str_eq v.token token && is_url (answer v db).1) ≡ true
        → (c < n) × Used token n (c + 1) (answer v db).0
    granted-Used v q =
        let same : v.token ≡ token = (str_eq_iff v.token token).0 (ground arith) in
        let (lt, counts) = granted v.at v.body (
          subst (λ t. is_url (share_download_url verify file_of sign v.at t v.body db).1 ≡ true)
            same (ground arith)) in
        (
          lt,
          subst
              (λ t.
                Used token n (c + 1) (share_download_url verify file_of sign v.at t v.body db).0)
              (sym same)
              (subst (Used token n (c + 1)) (sym counts)
                (counted-Used token n c u.row.id db u true ((e.beq_iff u.row.id u.row.id).1 refl))),
        )

    visit-Used : (v : Visit) → (c' : ℕ) × (c ≤ c') × Used token n c' (answer v db).0
    unfolding share_download_url
    visit-Used v = let r = admit verify file_of sign v.at v.token v.body db in settle-Used r.0 r.1

  urls-Used :
      (token : String) (n c : ℕ) (vs : List Visit) (db : List (Share U H))
      → Used token n c db
      → urls token vs db ≤ n - c
  unfolding urls
  urls-Used token n c [] db u = omega arith
  urls-Used token n c (v ∷ vs) db u =
      elim (Bool-cases (str_eq v.token token && is_url (answer v db).1)) [
        | inl q ↦
            let (lt, u') = granted-Used token n c db u v q in
            let ih = urls-Used token n (c + 1) vs (answer v db).0 u' in ground (arith, q)
        | inr q ↦
            let (c', le, u') = visit-Used token n c db u v in
            let ih = urls-Used token n c' vs (answer v db).0 u' in ground (arith, q)
      ]

  -- A link with a limit gives at most as many URLs as its limit leaves open, whatever visits of
  -- this and of other links follow, if they come one after another.
  pub urls-bounded :
      (token : String) (n : ℕ) (vs : List Visit) (db : List (Share U H)) (s : Share U H)
      → first_share token db ≡ some s
      → s.max_downloads ≡ some (pos n)
      → urls token vs db ≤ n - s.download_count
  urls-bounded token n vs db s found limit =
      urls-Used token n s.download_count vs db
        (record { row = s; found = found; limit = limit; count = refl })
