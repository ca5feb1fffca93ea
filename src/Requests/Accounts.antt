-- ===== src/Requests/Accounts.antt =====
-- lib/api/me.ts, lib/api/password-reset.ts and lib/api/notifications.ts
use optiflow.Prelude.{ℕ, [], ◌∷◌, String}
use optiflow.Requests.{auth, notify, get, post, patch, Request, plain, with_body, str, path3}

pub record Me : Type 0 where
  pub id : String
  pub email : String
  pub name : String
  pub storage_quota_bytes : ℕ

unfoldable pub get_me : Request
get_me = plain auth get "/me"

unfoldable pub update_me : String → Request
update_me name = with_body auth patch "/me" (("name", str name) ∷ [])

unfoldable pub request_password_reset : String → Request
request_password_reset email =
    with_body auth post "/password-reset/request" (("email", str email) ∷ [])

unfoldable pub confirm_password_reset : String → String → Request
confirm_password_reset token new_password =
    with_body auth post "/password-reset/confirm"
      (("token", str token) ∷ ("new_password", str new_password) ∷ [])

unfoldable pub list_notifications : Request
list_notifications = plain notify get "/notifications"

unfoldable pub mark_notification_read : String → Request
mark_notification_read id = plain notify patch (path3 "/notifications/" id "/read")
