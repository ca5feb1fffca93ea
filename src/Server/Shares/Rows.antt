-- ===== src/Server/Shares/Rows.antt =====
-- The table of share links: what a counted download and a new row do to the link of a token.
use optiflow.Prelude.{
  ◌+◌, ◌≡◌, refl, true, Option, none, some, List, [], ◌∷◌, ◌++◌, arith, String, str_eq,
  if◌then◌else◌, Eq,
}
use optiflow.Server.Shares.{Share, first_share, count_download}

module _ {U H : Type 0} ⦃e : Eq U⦄ where
  -- the row after a download of the link with an id
  abbrev pub counted : U → Share U H → Share U H
  counted id s = if e.beq s.id id then record s { download_count = s.download_count + 1 } else s

  abbrev pub counted_of : U → Option (Share U H) → Option (Share U H)
  counted_of id none = none
  counted_of id (some s) = some (counted id s)

  pub first_share-count_download :
      (id : U) (token : String) (db : List (Share U H))
      → first_share token (count_download id db) ≡ counted_of id (first_share token db)
  unfolding first_share count_download
  first_share-count_download id token [] = refl
  first_share-count_download id token (s ∷ ss) =
      ground (arith, first_share-count_download id token ss)

  pub first_share-append :
      (token : String) (db : List (Share U H)) (s : Share U H)
      → first_share token db ≡ none
      → str_eq s.token token ≡ true
      → first_share token (db ++ s ∷ []) ≡ some s
  unfolding first_share
  first_share-append token [] s fresh same = ground (arith, same)
  first_share-append token (x ∷ xs) s fresh same =
      ground (arith, fresh, first_share-append token xs s)
