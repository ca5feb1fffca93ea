-- ===== src/Pages/ResetPassword/Laws.antt =====
-- app/reset-password/page.tsx: what is sent, and that it is sent once.
use optiflow.Prelude.{
  ◌≤◌, ◌<◌, ◌≡◌, true, false, not, ◌&&◌, Option, none, List, [], ◌∷◌, String, truthy, arith,
  js_length, str_eq_iff,
}
use optiflow.View.{can}
use optiflow.Pages.ResetPassword.{
  State, initial, Effect, confirm_password_reset, Action, submit, is_submit, view, act, run,
}

can_submit :
    (s : State)
    → can is_submit (view s) ≡ (
        not s.done
        && (not s.is_loading && (truthy s.token && (truthy s.password && truthy s.confirm_pw))))
unfolding view
can_submit s = ground arith

-- A call in flight shows as loading, before the reset is done; there is at most one.
pub record Inv (s : State) : Type 0 where
  pub at_most_one : s.in_flight ≤ 1
  pub shown : 0 < s.in_flight → (s.is_loading ≡ true) × (s.done ≡ false) × (s.error ≡ none)
  pub loading_due : s.is_loading ≡ true → s.in_flight ≡ 1
  pub no_error : s.done ≡ true → (s.error ≡ none) × (s.in_flight ≡ 0)

act-Inv : (s : State) (a : Action) → Inv s → Inv (act s a).0
unfolding act
act-Inv s a h = ground (arith, h, can_submit s)

run-Inv : (s : State) (actions : List Action) → Inv s → Inv (run s actions)
unfolding run
run-Inv s [] h = h
run-Inv s (a ∷ rest) h = run-Inv (act s a).0 rest (act-Inv s a h)

submit-sends_confirmed :
    (s : State) (t p : String) (rest : List Effect)
    → Inv s
    → (act s submit).1 ≡ confirm_password_reset t p ∷ rest
    → (t ≡ s.token)
      × (truthy t ≡ true)
      × (p ≡ s.password)
      × (p ≡ s.confirm_pw)
      × (6 ≤ js_length p)
      × (s.in_flight ≡ 0)
      × (s.done ≡ false)
      × (rest ≡ [])
unfolding act
submit-sends_confirmed s t p rest inv h =
    ground (arith, h, inv, can_submit s, str_eq_iff s.password s.confirm_pw)

-- Whatever a user did on the page: a click on its button calls for a password reset only from the
-- form, with no other call in flight, with the token of the form, which is not empty, and with a
-- password of at least six code units that was confirmed.
pub run-sends_confirmed :
    (token : Option String) (actions : List Action) (t p : String) (rest : List Effect)
    → (act (run (initial token) actions) submit).1 ≡ confirm_password_reset t p ∷ rest
    → (t ≡ (run (initial token) actions).token)
      × (truthy t ≡ true)
      × (p ≡ (run (initial token) actions).password)
      × (p ≡ (run (initial token) actions).confirm_pw)
      × (6 ≤ js_length p)
      × ((run (initial token) actions).in_flight ≡ 0)
      × ((run (initial token) actions).done ≡ false)
      × (rest ≡ [])
run-sends_confirmed token actions t p rest =
    submit-sends_confirmed (run (initial token) actions) t p rest
      (run-Inv (initial token) actions (ground arith))
