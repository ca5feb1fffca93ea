-- ===== src/Dialogs/Share/Offers.antt =====
-- components/files/share-dialog.tsx: what can be clicked.
use optiflow.Prelude.{
  ◌≡◌, refl, Bool, true, false, not, ◌&&◌, Option, List, [], ◌∷◌, String, any, arith, or_else,
  str_eq, is_truthy,
}
use optiflow.Requests.Shares.{Share}
use optiflow.View.{can}
use optiflow.Dialogs.Share.{
  expiry_options, option_list, Queries, State, Action, set_expires_in, set_password,
  set_max_downloads, click_create, close, copy, click_revoke, share_view, share_list, shares_view,
  view,
}

-- An action up to the text that is typed, which may be any.
abbrev pub same : Action → Action → Bool
same (set_expires_in t) (set_expires_in u) = str_eq t u
same (set_password t) (set_password u) = true
same (set_max_downloads t) (set_max_downloads u) = true
same click_create click_create = true
same close close = true
same (copy t) (copy u) = str_eq t u
same (click_revoke t) (click_revoke u) = str_eq t u
same _ _ = false

abbrev pub is_option : String → Bool
is_option t = any (λ o. str_eq t o.value) expiry_options

module _ (origin : Option String) (distance : String → String) where
  list_options :
      (t : String) (shares : List Share)
      → can (same (set_expires_in t)) (share_list origin distance shares) ≡ false
  unfolding share_list share_view
  list_options t [] = refl
  list_options t (x ∷ xs) = ground (arith, list_options t xs)

  shares_options :
      (t : String) (shares : List Share)
      → can (same (set_expires_in t)) (shares_view origin distance shares) ≡ false
  unfolding shares_view
  shares_options t [] = refl
  shares_options t (x ∷ xs) = list_options t (x ∷ xs)

  pub offered_options :
      (t : String) (q : Queries) (s : State)
      → can (same (set_expires_in t)) (view origin distance q s) ≡ (q.shown && is_option t)
  unfolding view option_list expiry_options
  offered_options t q s = ground (arith, shares_options t (or_else q.shares []))

  list_create :
      (shares : List Share) → can (same click_create) (share_list origin distance shares) ≡ false
  unfolding share_list share_view
  list_create [] = refl
  list_create (x ∷ xs) = ground (arith, list_create xs)

  shares_create :
      (shares : List Share) → can (same click_create) (shares_view origin distance shares) ≡ false
  unfolding shares_view
  shares_create [] = refl
  shares_create (x ∷ xs) = list_create (x ∷ xs)

  pub offered_create :
      (q : Queries) (s : State)
      → can (same click_create) (view origin distance q s)
        ≡ (q.shown && (not q.create_pending && is_truthy q.file_id))
  unfolding view option_list expiry_options
  offered_create q s = ground (arith, shares_create (or_else q.shares []))
