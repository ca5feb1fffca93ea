-- ===== src/Pages/ResetPassword.antt =====
-- app/reset-password/page.tsx (frontend), the component ResetPasswordForm.
--
-- `in_flight` counts the calls of confirmPasswordReset that have not been answered; it belongs to
-- the environment. The browser's own validation of the form is left out.
pub mod Laws
use optiflow.Prelude.{
  ℕ, suc, ◌-◌, Bool, true, false, not, ◌&&◌, ◌||◌, Option, none, some, List, [], ◌∷◌, String,
  truthy, if◌then◌else◌, ltb, js_length, str_eq, or_else,
}
use optiflow.Failure.{Failure, failure_text, Answer, ok, threw}
use optiflow.View.{View, spinner, text, element, link, clickable, field, ◌⊕◌, text_if, can}

pub record State : Type 0 where
  pub token : String
  pub password : String
  pub confirm_pw : String
  pub error : Option String
  pub is_loading : Bool
  pub done : Bool
  pub in_flight : ℕ

-- The state at first, for the `token` parameter of the address.
abbrev pub initial : Option String → State
initial token = record {
  token = or_else token "";
  password = "";
  confirm_pw = "";
  error = none;
  is_loading = false;
  done = false;
  in_flight = 0;
}

pub data Effect : Type 0 where
  confirm_password_reset : (token new_password : String) → Effect
  push_later : String → ℕ → Effect

pub data Action : Type 0 where
  set_token set_password set_confirm_pw : String → Action
  submit : Action
  answered : Answer (Unit {0}) → Action

-- handleSubmit up to its `await`
unfoldable pub handle_submit : State → State × List Effect
handle_submit s =
    if ltb (js_length s.password) 6
    then (record s { error = some "Password must be at least 6 characters" }, [])
    else if not (str_eq s.password s.confirm_pw)
    then (record s { error = some "Passwords do not match" }, [])
    else (
      record s { error = none; is_loading = true; in_flight = suc s.in_flight },
      confirm_password_reset s.token s.password ∷ [],
    )

-- handleSubmit after it, with its `finally`
unfoldable pub after_confirm : Answer (Unit {0}) → State → State × List Effect
after_confirm (ok u) s = (
  record s { done = true; is_loading = false; in_flight = s.in_flight - 1 },
  push_later "/signin" 1500 ∷ [],
)
after_confirm (threw err) s = (
  record s {
    error = some (failure_text "Failed to reset password" err);
    is_loading = false;
    in_flight = s.in_flight - 1;
  },
  [],
)

form_view : State → View Action
form_view s = element "div" (
    element "h1" (text "Set a new password")
    ⊕ element "form" (
        text_if s.error
        ⊕ field "text" "Reset token" s.token set_token
        ⊕ field "password" "New password" s.password set_password
        ⊕ field "password" "Confirm new password" s.confirm_pw set_confirm_pw
        ⊕ clickable
            (s.is_loading
              || (not (truthy s.token) || (not (truthy s.password) || not (truthy s.confirm_pw))))
            submit (if s.is_loading then spinner else text "Reset password")))

success_view : View Action
success_view =
    element "div"
      (element "h1" (text "Password reset") ⊕ element "p" (text "Redirecting you to sign in…"))

unfoldable pub view : State → View Action
unfolding form_view success_view
view s =
    element "div"
      (link "/signin" (text "Back to sign in") ⊕ (if not s.done then form_view s else success_view))

abbrev pub is_submit : Action → Bool
is_submit submit = true
is_submit _ = false

abbrev pub is_typing : Action → Bool
is_typing (set_token t) = true
is_typing (set_password t) = true
is_typing (set_confirm_pw t) = true
is_typing _ = false

-- An action of the user takes place if the page offers it, an answer if one is due.
unfoldable pub act : State → Action → State × List Effect
unfolding handle_submit after_confirm
act s (set_token t) = (if can is_typing (view s) then record s { token = t } else s, [])
act s (set_password t) = (if can is_typing (view s) then record s { password = t } else s, [])
act s (set_confirm_pw t) = (if can is_typing (view s) then record s { confirm_pw = t } else s, [])
act s submit = if can is_submit (view s) then handle_submit s else (s, [])
act s (answered a) = if ltb 0 s.in_flight then after_confirm a s else (s, [])

unfoldable pub run : State → List Action → State
run s [] = s
run s (a ∷ rest) = run (act s a).0 rest
