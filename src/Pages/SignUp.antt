-- ===== src/Pages/SignUp.antt =====
-- app/sign-up/page.tsx (frontend).
--
-- `in_flight` counts the requests to /signup that have not been answered; it belongs to the
-- environment. The browser's own validation of the form is left out.
pub mod Laws
use optiflow.Prelude.{
  ℕ, suc, ◌-◌, Bool, true, false, not, ◌&&◌, ◌||◌, Option, none, some, List, [], ◌∷◌, String,
  truthy, if◌then◌else◌, ltb,
}
use optiflow.Failure.{Failure, failure_text, Answer, ok, threw}
use optiflow.View.{View, spinner, text, element, link, clickable, field, ◌⊕◌, text_if, can}

pub data Step : Type 0 where
  form success : Step

pub record State : Type 0 where
  pub name : String
  pub email : String
  pub password : String
  pub error : Option String
  pub is_loading : Bool
  pub step : Step
  pub in_flight : ℕ

abbrev pub initial : State
initial = record {
  name = "";
  email = "";
  password = "";
  error = none;
  is_loading = false;
  step = form;
  in_flight = 0;
}

pub data Effect : Type 0 where
  post_signup : (email password name : String) → Effect
  push_later : String → ℕ → Effect

pub data Action : Type 0 where
  set_name set_email set_password : String → Action
  submit : Action
  answered : Answer (Unit {0}) → Action

-- handleSubmit up to its `await`
unfoldable pub handle_submit : State → State × List Effect
handle_submit s = (
  record s { error = none; is_loading = true; in_flight = suc s.in_flight },
  post_signup s.email s.password s.name ∷ [],
)

-- handleSubmit after it
unfoldable pub after_signup : Answer (Unit {0}) → State → State × List Effect
after_signup (ok u) s =
    (record s { step = success; in_flight = s.in_flight - 1 }, push_later "/signin" 1200 ∷ [])
after_signup (threw err) s = (
  record s {
    error = some (failure_text "Failed to create account. Please try again." err);
    is_loading = false;
    in_flight = s.in_flight - 1;
  },
  [],
)

form_view : State → View Action
form_view s = element "div" (
    element "h1" (text "Create account")
    ⊕ element "p" (text "Join StreamVault today")
    ⊕ element "button" (text "Continue with GitHub (coming soon)")
    ⊕ element "span" (text "or")
    ⊕ element "form" (
        text_if s.error
        ⊕ field "text" "Full name" s.name set_name
        ⊕ field "email" "Email address" s.email set_email
        ⊕ field "password" "Password (min. 6 characters)" s.password set_password
        ⊕ clickable
            (s.is_loading
              || (not (truthy s.email) || (not (truthy s.password) || not (truthy s.name))))
            submit (if s.is_loading then spinner else text "Create account"))
    ⊕ element "p" (text "Already have an account?" ⊕ link "/signin" (text "Sign in")))

success_view : View Action
success_view =
    element "div"
      (element "h1" (text "Account created!") ⊕ element "p" (text "Taking you to sign in…"))

step_view : Step → State → View Action
step_view form s = form_view s
step_view success s = success_view

unfoldable pub view : State → View Action
unfolding step_view form_view success_view
view s = element "div" (
    link "/" (text "Back to home")
    ⊕ step_view s.step s
    ⊕ element "p" (
        text "By creating an account you agree to our"
        ⊕ link "#" (text "Terms")
        ⊕ text "and"
        ⊕ link "#" (text "Privacy Policy")))

abbrev pub is_submit : Action → Bool
is_submit submit = true
is_submit _ = false

abbrev pub is_typing : Action → Bool
is_typing (set_name t) = true
is_typing (set_email t) = true
is_typing (set_password t) = true
is_typing _ = false

-- An action of the user takes place if the page offers it, an answer if one is due.
unfoldable pub act : State → Action → State × List Effect
unfolding handle_submit after_signup
act s (set_name t) = (if can is_typing (view s) then record s { name = t } else s, [])
act s (set_email t) = (if can is_typing (view s) then record s { email = t } else s, [])
act s (set_password t) = (if can is_typing (view s) then record s { password = t } else s, [])
act s submit = if can is_submit (view s) then handle_submit s else (s, [])
act s (answered a) = if ltb 0 s.in_flight then after_signup a s else (s, [])

unfoldable pub run : State → List Action → State
run s [] = s
run s (a ∷ rest) = run (act s a).0 rest
