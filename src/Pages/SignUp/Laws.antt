-- ===== src/Pages/SignUp/Laws.antt =====
-- app/sign-up/page.tsx: one request at a time, and none after the account was created.
use optiflow.Prelude.{
  ◌≤◌, ◌<◌, ◌≡◌, Bool, true, false, not, ◌&&◌, ◌||◌, none, List, [], ◌∷◌, truthy, arith, ltb,
  is_some,
}
use optiflow.View.{can}
use optiflow.Pages.SignUp.{Step, form, success, State, initial, Action, is_submit, view, act, run}

abbrev pub is_form : Step → Bool
is_form form = true
is_form success = false

can_submit :
    (s : State)
    → can is_submit (view s) ≡ (
        is_form s.step
        && (not s.is_loading && (truthy s.email && (truthy s.password && truthy s.name))))
unfolding view
can_submit s = ground arith

-- A request in flight shows as loading, on the form; there is at most one.
pub record Inv (s : State) : Type 0 where
  pub at_most_one : s.in_flight ≤ 1
  pub shown : 0 < s.in_flight → (s.is_loading ≡ true) × (s.step ≡ form) × (s.error ≡ none)
  pub loading_due : s.is_loading ≡ true → s.step ≡ form → s.in_flight ≡ 1
  pub no_error : s.step ≡ success → (s.error ≡ none) × (s.in_flight ≡ 0)

act-Inv : (s : State) (a : Action) → Inv s → Inv (act s a).0
unfolding act
act-Inv s a h = ground (arith, h, can_submit s)

run-Inv : (s : State) (actions : List Action) → Inv s → Inv (run s actions)
unfolding run
run-Inv s [] h = h
run-Inv s (a ∷ rest) h = run-Inv (act s a).0 rest (act-Inv s a h)

-- However a user types and clicks and the service answers, a second request never starts while one
-- is in flight; the button can be clicked exactly on the form with all three fields filled in and
-- no request in flight; and once the account was created there is no error and no request in
-- flight.
pub run-signs_up_once :
    (actions : List Action)
    → ((run initial actions).in_flight ≤ 1)
      × (can is_submit (view (run initial actions)) ≡ (
          is_form (run initial actions).step
          && (ltb (run initial actions).in_flight 1
              && (truthy (run initial actions).email
                  && (truthy (run initial actions).password
                      && truthy (run initial actions).name)))))
      × ((not (is_form (run initial actions).step)
            && (is_some (run initial actions).error || ltb 0 (run initial actions).in_flight))
          ≡ false)
run-signs_up_once actions =
    let s = run initial actions in
    let inv = run-Inv initial actions (ground arith) in
    (inv.at_most_one, ground (arith, inv, can_submit s), ground (arith, inv))
