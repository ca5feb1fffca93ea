-- ===== src/Server/Shares/Race.antt =====
-- shareDownloadURL reads the count and raises it in two statements, with no transaction, so two
-- visits can interleave.
use optiflow.Prelude.{ℕ, suc, ◌≡◌, sym, subst, ◌∙◌, ap, Bool, Option, some, List, arith, String, Eq}
use optiflow.Server.Shares.{
  pos, Share, StoredFile, url, refused, first_share, active, resolve_active_share, admit, settle,
  count_download, share_download_url,
}
use optiflow.Server.Shares.Rows.{counted_of, first_share-count_download}

module _ {U H : Type 0} ⦃e : Eq U⦄ (verify : H → String → Bool) (file_of : U → Option StoredFile)
    (sign : String → Option String) where
  -- The counts of a row that is downloaded twice.
  twice :
      (token : String) (db : List (Share U H)) (s : Share U H)
      → first_share token db ≡ some s
      → first_share token (count_download s.id (count_download s.id db))
        ≡ some (record s { download_count = suc (suc s.download_count) })
  twice token db s found =
      first_share-count_download s.id token (count_download s.id db)
      ∙ ap (counted_of s.id) (first_share-count_download s.id token db)
      ∙ ground (arith, found, e.beq_iff s.id s.id)

  module _ (now : ℕ) (token u : String) (body : Option String) (db : List (Share U H))
      (s : Share U H) (got : (admit verify file_of sign now token body db).1 ≡ url u) where
    admitted :
        first_share token db ≡ some s
        → admit verify file_of sign now token body db ≡ (some s.id, url u)
    unfolding admit resolve_active_share active
    admitted found = ground (arith, found, got)

    settled :
        first_share token db ≡ some s
        → (db' : List (Share U H))
        → settle
            (admit verify file_of sign now token body db).0
            (admit verify file_of sign now token body db).1
            db'
          ≡ count_download s.id db'
    unfolding settle
    settled found db' = ap (λ r. settle r.0 r.1 db') (admitted found)

  used_up :
      (now : ℕ) (token : String) (body : Option String) (db : List (Share U H)) (s : Share U H)
      → first_share token db ≡ some s
      → s.max_downloads ≡ some (pos s.download_count)
      → (share_download_url verify file_of sign now token body db).1
        ≡ refused 404 "share link not found or expired"
  unfolding share_download_url admit resolve_active_share active
  used_up now token body db s found limit = ground (arith, found, limit)

  once :
      (token : String) (db : List (Share U H)) (s : Share U H)
      → first_share token db ≡ some s
      → first_share token (count_download s.id db)
        ≡ some (record s { download_count = suc s.download_count })
  once token db s found =
      first_share-count_download s.id token db ∙ ground (arith, found, e.beq_iff s.id s.id)

  -- A link with one download left and a visit that gets a URL: a second visit after it is refused.
  -- But if both visits read the link before either is counted, both get the URL, and the link has
  -- been downloaded once more often than its limit says.
  pub downloads_race :
      (now : ℕ) (token u : String) (body : Option String) (db : List (Share U H)) (s : Share U H)
      → first_share token db ≡ some s
      → s.max_downloads ≡ some (pos (suc s.download_count))
      → let read = admit verify file_of sign now token body db in
        read.1 ≡ url u
        → let after = share_download_url verify file_of sign now token body db in
          ((share_download_url verify file_of sign now token body after.0).1
            ≡ refused 404 "share link not found or expired")
          × (first_share token (settle read.0 read.1 (settle read.0 read.1 db))
              ≡ some (record s { download_count = suc (suc s.download_count) }))
  unfolding share_download_url
  downloads_race now token u body db s found limit got =
      let counts = settled now token u body db s got found in
      (
        subst
            (λ db'.
              (share_download_url verify file_of sign now token body db').1
              ≡ refused 404 "share link not found or expired")
            (sym (counts db))
            (used_up now token body (count_download s.id db)
              (record s { download_count = suc s.download_count }) (once token db s found) limit),
        ap (first_share token) (counts _ ∙ ap (count_download s.id) (counts db))
            ∙ twice token db s found,
      )
