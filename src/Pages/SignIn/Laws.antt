-- ===== src/Pages/SignIn/Laws.antt =====
-- app/signin/page.tsx: when the form can be sent, and that it is never sent twice at once.
use optiflow.Prelude.{
  ◌≤◌, ◌<◌, ◌≡◌, Bool, true, false, not, ◌&&◌, ◌||◌, none, List, [], ◌∷◌, truthy, arith, is_some,
  ltb,
}
use optiflow.View.{can}
use optiflow.Pages.SignIn.{Step, form, success, State, initial, Action, is_submit, view, act, run}

abbrev pub is_form : Step → Bool
is_form form = true
is_form success = false

can_submit :
    (s : State)
    → can is_submit (view s)
      ≡ (is_form s.step && (not s.is_loading && (truthy s.email && truthy s.password)))
unfolding view
can_submit s = ground arith

-- A call in flight shows as loading, on the form; there is at most one; a success shows no error.
pub record Inv (s : State) : Type 0 where
  pub at_most_one : s.in_flight ≤ 1
  pub shown : 0 < s.in_flight → (s.is_loading ≡ true) × (s.step ≡ form) × (s.error ≡ none)
  pub loading_due : s.is_loading ≡ true → s.step ≡ form → s.in_flight ≡ 1
  pub no_error : s.step ≡ success → (s.error ≡ none) × (s.in_flight ≡ 0)

act-Inv : (s : State) (a : Action) → Inv s → Inv (act s a).0
unfolding act
act-Inv s a h = ground (arith, h, can_submit s)

run-Inv : (s : State) (rest : List Action) → Inv s → Inv (run s rest)
unfolding run
run-Inv s [] h = h
run-Inv s (a ∷ rest) h = run-Inv (act s a).0 rest (act-Inv s a h)

-- However a user types and clicks and signIn answers, a second sign-in never starts while one is in
-- flight; the button can be clicked exactly on the form with both fields filled in and no call in
-- flight; and once a sign-in has succeeded there is no error and no call in flight.
pub run-submits_once :
    (actions : List Action)
    → ((run initial actions).in_flight ≤ 1)
      × (can is_submit (view (run initial actions)) ≡ (
          is_form (run initial actions).step
          && (ltb (run initial actions).in_flight 1
              && (truthy (run initial actions).email && truthy (run initial actions).password))))
      × ((not (is_form (run initial actions).step)
            && (is_some (run initial actions).error || ltb 0 (run initial actions).in_flight))
          ≡ false)
run-submits_once actions =
    let s = run initial actions in
    let inv = run-Inv initial actions (ground arith) in
    (inv.at_most_one, ground (arith, inv, can_submit s), ground (arith, inv))
