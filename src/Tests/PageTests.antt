-- ===== src/Tests/PageTests.antt =====
-- The pages of app/ at concrete inputs.
use optiflow.Prelude.{◌≤◌, ◌≡◌, refl, true, false, some, List, [], ◌∷◌, truthy, js_length}
use optiflow.Pages.SignIn as In
use optiflow.Pages.ResetPassword as Reset
use optiflow.Pages.ResetPassword.Laws as ResetLaws

abbrev twice : List In.Action
twice = In.set_email "a@b.c" ∷ In.set_password "secret" ∷ In.submit ∷ In.submit ∷ []

abbrev confirmed : List Reset.Action
confirmed = Reset.set_password "secret" ∷ Reset.set_confirm_pw "secret" ∷ []

run-sends_confirmed_example :
    ("t" ≡ (Reset.run (Reset.initial (some "t")) confirmed).token)
    × (truthy "t" ≡ true)
    × ("secret" ≡ (Reset.run (Reset.initial (some "t")) confirmed).password)
    × ("secret" ≡ (Reset.run (Reset.initial (some "t")) confirmed).confirm_pw)
    × (6 ≤ js_length "secret")
    × ((Reset.run (Reset.initial (some "t")) confirmed).in_flight ≡ 0)
    × ((Reset.run (Reset.initial (some "t")) confirmed).done ≡ false)
    × (◌≡◌ {A = List Reset.Effect} [] [])
unfolding Reset.run Reset.act Reset.view Reset.handle_submit
run-sends_confirmed_example =
    ResetLaws.run-sends_confirmed (some "t") confirmed "t" "secret" [] refl
