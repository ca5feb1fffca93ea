-- ===== src/Pages/ForgotPassword.antt =====
-- app/forgot-password/page.tsx (frontend).
--
-- `in_flight` counts the calls of requestPasswordReset that have not been answered; it belongs to
-- the environment. The browser's own validation of the form is left out, and `encode` stands for
-- encodeURIComponent.
pub mod Laws
use optiflow.Prelude.{
  ℕ, suc, ◌-◌, Bool, true, false, not, ◌&&◌, ◌||◌, Option, none, some, List, [], ◌∷◌, String,
  truthy, is_truthy, if◌then◌else◌, ltb, concat, or_else,
}
use optiflow.Failure.{Failure, failure_text, Answer, ok, threw}
use optiflow.View.{View, spinner, text, element, link, clickable, field, ◌⊕◌, text_if, can}

pub record State : Type 0 where
  pub email : String
  pub error : Option String
  pub is_loading : Bool
  pub reset_token : Option String
  pub in_flight : ℕ

abbrev pub initial : State
initial = record { email = ""; error = none; is_loading = false; reset_token = none; in_flight = 0 }

pub data Effect : Type 0 where
  request_password_reset : (email : String) → Effect

pub data Action : Type 0 where
  set_email : String → Action
  submit : Action
  answered : Answer String → Action

-- handleSubmit up to its `await`
unfoldable pub handle_submit : State → State × List Effect
handle_submit s = (
  record s { error = none; is_loading = true; in_flight = suc s.in_flight },
  request_password_reset s.email ∷ [],
)

-- handleSubmit after it, with its `finally`
unfoldable pub after_request : Answer String → State → State
after_request (ok token) s = record s {
  reset_token = some token;
  is_loading = false;
  in_flight = s.in_flight - 1;
}
after_request (threw err) s = record s {
  error = some (failure_text "Failed to start password reset" err);
  is_loading = false;
  in_flight = s.in_flight - 1;
}

form_view : State → View Action
form_view s = element "div" (
    element "h1" (text "Reset your password")
    ⊕ element "p" (text "Enter your account email and we'll get you a reset link.")
    ⊕ element "form" (
        text_if s.error
        ⊕ field "email" "Email address" s.email set_email
        ⊕ clickable (s.is_loading || not (truthy s.email)) submit
            (if s.is_loading then spinner else text "Send reset link")))

module _ (encode : String → String) where
  token_view : String → View Action
  token_view token = element "div" (
      element "h1" (text "Dev mode: no email sender yet")
      ⊕ element "p" (
          text "There's no email provider wired up, so here's your reset link directly."
          ⊕ text "It expires in 30 minutes.")
      ⊕ link (concat "/reset-password?token=" (encode token)) (text "Continue to reset password"))

  unfoldable pub view : State → View Action
  unfolding form_view token_view
  view s = element "div" (
      link "/signin" (text "Back to sign in")
      ⊕ (if not (is_truthy s.reset_token)
          then form_view s
          else token_view (or_else s.reset_token "")))

abbrev pub is_submit : Action → Bool
is_submit submit = true
is_submit _ = false

abbrev pub is_typing : Action → Bool
is_typing (set_email t) = true
is_typing _ = false

module _ (encode : String → String) where
  -- An action of the user takes place if the page offers it, an answer if one is due.
  unfoldable pub act : State → Action → State × List Effect
  unfolding handle_submit after_request
  act s (set_email t) = (if can is_typing (view encode s) then record s { email = t } else s, [])
  act s submit = if can is_submit (view encode s) then handle_submit s else (s, [])
  act s (answered a) = (if ltb 0 s.in_flight then after_request a s else s, [])

  unfoldable pub run : State → List Action → State
  run s [] = s
  run s (a ∷ rest) = run (act s a).0 rest
