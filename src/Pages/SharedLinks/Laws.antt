-- ===== src/Pages/SharedLinks/Laws.antt =====
-- app/dashboard/shared/page.tsx: which links can be copied and revoked.
use optiflow.Prelude.{
  ◌≡◌, refl, Bool, false, not, ◌&&◌, Option, List, [], ◌∷◌, String, any, arith, or_else, str_eq,
}
use optiflow.Requests.Shares.{Share}
use optiflow.View.{can}
use optiflow.Pages.SharedLinks.{
  Queries, Action, copy, click_revoke, share_view, share_list, shares_view, view, not_yet_available,
}

abbrev pub revokes : String → Action → Bool
revokes id (click_revoke i) = str_eq i id
revokes id _ = false

abbrev pub copies : String → Action → Bool
copies t (copy u) = str_eq u t
copies t _ = false

module _ (origin : Option String) (distance : String → String) where
  list_offers :
      (id token : String) (shares : List Share)
      → (can (revokes id) (share_list origin distance shares) ≡ any (λ s. str_eq s.id id) shares)
        × (can (copies token) (share_list origin distance shares)
            ≡ any (λ s. str_eq s.token token) shares)
  unfolding share_list share_view
  list_offers id token [] = (refl, refl)
  list_offers id token (s ∷ ss) = ground (arith, list_offers id token ss)

  shares_offers :
      (id token : String) (shares : List Share)
      → (can (revokes id) (shares_view origin distance shares) ≡ any (λ s. str_eq s.id id) shares)
        × (can (copies token) (shares_view origin distance shares)
            ≡ any (λ s. str_eq s.token token) shares)
  unfolding shares_view not_yet_available
  shares_offers id token [] = (refl, refl)
  shares_offers id token (s ∷ ss) = list_offers id token (s ∷ ss)

  -- A link can be revoked, and its URL copied, exactly when the list has come with a link of that
  -- id or token.
  pub view_offers :
      (id token : String) (q : Queries)
      → (can (revokes id) (view origin distance q)
          ≡ (not q.is_loading && any (λ s. str_eq s.id id) (or_else q.shares [])))
        × (can (copies token) (view origin distance q)
            ≡ (not q.is_loading && any (λ s. str_eq s.token token) (or_else q.shares [])))
  unfolding view
  view_offers id token q = ground (arith, shares_offers id token (or_else q.shares []))
