-- ===== src/Pages/ForgotPassword/Laws.antt =====
-- app/forgot-password/page.tsx: one request at a time, and when the link is shown.
use optiflow.Prelude.{
  ◌≤◌, ◌<◌, ◌≡◌, true, false, not, ◌&&◌, ◌||◌, none, List, [], ◌∷◌, String, truthy, is_truthy,
  arith, ltb, is_some,
}
use optiflow.View.{can}
use optiflow.Pages.ForgotPassword.{State, initial, Action, is_submit, view, act, run}

module _ (encode : String → String) where
  can_submit :
      (s : State)
      → can is_submit (view encode s)
        ≡ (not (is_truthy s.reset_token) && (not s.is_loading && truthy s.email))
  unfolding view
  can_submit s = ground arith

  -- A call in flight shows as loading, without an error and without a token; there is at most
  -- one.
  pub record Inv (s : State) : Type 0 where
    pub at_most_one : s.in_flight ≤ 1
    pub shown :
        0 < s.in_flight
        → (s.is_loading ≡ true) × (s.error ≡ none) × (is_truthy s.reset_token ≡ false)
    pub loading_due : s.is_loading ≡ true → s.in_flight ≡ 1
    pub no_error : is_truthy s.reset_token ≡ true → (s.error ≡ none) × (s.in_flight ≡ 0)

  act-Inv : (s : State) (a : Action) → Inv s → Inv (act encode s a).0
  unfolding act
  act-Inv s a h = ground (arith, h, can_submit s)

  run-Inv : (s : State) (actions : List Action) → Inv s → Inv (run encode s actions)
  unfolding run
  run-Inv s [] h = h
  run-Inv s (a ∷ rest) h = run-Inv (act encode s a).0 rest (act-Inv s a h)

  -- However a user types and clicks and the service answers, a second request never starts while
  -- one is in flight; the button can be clicked exactly on the form with an address typed in and
  -- no request in flight; and once a reset token that is not empty has come, there is no error and
  -- no request in flight.
  pub run-requests_once :
      (actions : List Action)
      → ((run encode initial actions).in_flight ≤ 1)
        × (can is_submit (view encode (run encode initial actions)) ≡ (
            not (is_truthy (run encode initial actions).reset_token)
            && (ltb (run encode initial actions).in_flight 1
                && truthy (run encode initial actions).email)))
        × ((is_truthy (run encode initial actions).reset_token
              && (is_some (run encode initial actions).error
                  || ltb 0 (run encode initial actions).in_flight))
            ≡ false)
  run-requests_once actions =
      let s = run encode initial actions in
      let inv = run-Inv initial actions (ground arith) in
      (inv.at_most_one, ground (arith, inv, can_submit s), ground (arith, inv))
