-- ===== src/Pages/SignIn.antt =====
-- app/signin/page.tsx (frontend).
--
-- `in_flight` counts the calls of signIn that have not been answered; it belongs to the
-- environment. The browser's own validation of the form is left out, and so is a signIn that
-- throws, which the page does not catch.
pub mod Laws
use optiflow.Prelude.{
  ℕ, suc, ◌+◌, ◌-◌, Bool, true, false, not, ◌&&◌, ◌||◌, Option, none, some, List, [], ◌∷◌, String,
  truthy, if◌then◌else◌, ltb,
}
use optiflow.View.{View, nothing, spinner, text, element, link, clickable, field, ◌⊕◌, text_if, can}

pub data Step : Type 0 where
  form success : Step

pub record State : Type 0 where
  pub email : String
  pub password : String
  pub error : Option String
  pub is_loading : Bool
  pub step : Step
  pub in_flight : ℕ

abbrev pub initial : State
initial = record {
  email = "";
  password = "";
  error = none;
  is_loading = false;
  step = form;
  in_flight = 0;
}

pub data Effect : Type 0 where
  sign_in : (email password : String) → Effect
  push_later : String → ℕ → Effect

-- What the user does, and the answer of signIn: whether `result?.error` is there.
pub data Action : Type 0 where
  set_email set_password : String → Action
  submit : Action
  answered : (failed : Bool) → Action

-- handleCredentials up to its `await`
unfoldable pub handle_credentials : State → State × List Effect
handle_credentials s = (
  record s { error = none; is_loading = true; in_flight = suc s.in_flight },
  sign_in s.email s.password ∷ [],
)

-- handleCredentials after it
unfoldable pub after_sign_in : Bool → State → State × List Effect
after_sign_in true s = (
  record s {
    error = some "Invalid email or password. Please try again.";
    is_loading = false;
    in_flight = s.in_flight - 1;
  },
  [],
)
after_sign_in false s =
    (record s { step = success; in_flight = s.in_flight - 1 }, push_later "/dashboard" 1000 ∷ [])

form_view : State → View Action
form_view s = element "div" (
    element "h1" (text "Welcome back")
    ⊕ element "p" (text "Sign in to your StreamVault account")
    ⊕ element "button" (text "Continue with GitHub (coming soon)")
    ⊕ element "span" (text "or")
    ⊕ element "form" (
        text_if s.error
        ⊕ field "email" "Email address" s.email set_email
        ⊕ field "password" "Password" s.password set_password
        ⊕ link "/forgot-password" (text "Forgot password?")
        ⊕ clickable (s.is_loading || (not (truthy s.email) || not (truthy s.password))) submit
            (if s.is_loading then spinner else text "Sign in"))
    ⊕ element "p" (text "Don't have an account?" ⊕ link "/sign-up" (text "Sign up")))

success_view : View Action
success_view =
    element "div"
      (element "h1" (text "You're in!") ⊕ element "p" (text "Redirecting to dashboard…"))

step_view : Step → State → View Action
step_view form s = form_view s
step_view success s = success_view

unfoldable pub view : State → View Action
unfolding step_view form_view success_view
view s = element "div" (
    link "/" (text "Back to home")
    ⊕ step_view s.step s
    ⊕ element "p" (
        text "By continuing, you agree to our"
        ⊕ link "#" (text "Terms")
        ⊕ text "and"
        ⊕ link "#" (text "Privacy Policy")))

abbrev pub is_submit : Action → Bool
is_submit submit = true
is_submit _ = false

abbrev pub is_typing : Action → Bool
is_typing (set_email t) = true
is_typing (set_password t) = true
is_typing _ = false

-- An action of the user takes place if the page offers it, an answer if one is due.
unfoldable pub act : State → Action → State × List Effect
unfolding handle_credentials after_sign_in
act s (set_email t) = (if can is_typing (view s) then record s { email = t } else s, [])
act s (set_password t) = (if can is_typing (view s) then record s { password = t } else s, [])
act s submit = if can is_submit (view s) then handle_credentials s else (s, [])
act s (answered failed) = if ltb 0 s.in_flight then after_sign_in failed s else (s, [])

unfoldable pub run : State → List Action → State
run s [] = s
run s (a ∷ rest) = run (act s a).0 rest
