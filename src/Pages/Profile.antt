-- ===== src/Pages/Profile.antt =====
-- app/dashboard/profile/page.tsx (frontend). What the hooks return at a render is `Queries`; the
-- fallback of the avatar is that of a name whose first character is one UTF-16 code unit. The
-- texts of sizes are those of the files page, whose formatBytes is the same text.
pub mod Laws
use optiflow.Prelude.{
  ℕ, ◌*◌, min, Bool, true, false, not, ◌||◌, Option, none, some, List, [], ◌∷◌, String, concat,
  or_else, truthy, is_blank, trim, if◌then◌else◌, ◌==◌,
}
use Prim.Native.String.{slice}
use optiflow.Failure.{failure_text, Answer, ok, threw}
use optiflow.Requests.Accounts.{Me}
use optiflow.Requests.Files.{FileStats}
use optiflow.View.{View, nothing, spinner, text, element, clickable, field, ◌⊕◌, can}
use optiflow.Pages.Files.Cards.{format_bytes, decimal}

-- `session?.user`, as far as the page reads it
pub record SessionUser : Type 0 where
  pub name : Option String
  pub email : Option String

pub record Queries : Type 0 where
  pub user : Option SessionUser
  pub me : Option Me
  pub me_loading : Bool
  pub stats : Option FileStats
  pub stats_loading : Bool
  pub update_pending : Bool

pub record State : Type 0 where
  pub editing : Bool
  pub name : String

abbrev pub initial : State
initial = record { editing = false; name = "" }

pub data Effect : Type 0 where
  update_me : (name : String) → Effect
  update_session : (name : String) → Effect
  success_toast error_toast : String → Effect

pub data Action : Type 0 where
  start_editing save cancel : Action
  set_name : String → Action

name_of : Option Me → Option String
name_of none = none
name_of (some me) = some me.name

-- startEditing
unfoldable pub on_start : Queries → State → State
unfolding name_of
on_start q s = record s { name = or_else (name_of q.me) ""; editing = true }

unfoldable pub handle_save : State → List Effect
handle_save s = if is_blank s.name then [] else update_me (trim s.name) ∷ []

-- onSuccess up to its `await`, which is answered by the second one, and onError
unfoldable pub after_update : Answer Me → List Effect
after_update (ok updated) = update_session updated.name ∷ []
after_update (threw err) = error_toast (failure_text "Failed to update profile" err) ∷ []

unfoldable pub after_session : State → State × List Effect
after_session s = (record s { editing = false }, success_toast "Profile updated" ∷ [])

-- What an action does.
unfoldable pub perform : Queries → Action → State → State × List Effect
unfolding on_start handle_save
perform q start_editing s = (on_start q s, [])
perform q save s = (s, handle_save s)
perform q cancel s = (record (on_start q s) { editing = false }, [])
perform q (set_name t) s = (record s { name = t }, [])

user_name : Option SessionUser → Option String
user_name none = none
user_name (some u) = u.name

user_email : Option SessionUser → Option String
user_email none = none
user_email (some u) = u.email

unfoldable pub display_name : Queries → String
unfolding name_of user_name
display_name q = or_else (name_of q.me) (or_else (user_name q.user) "Unnamed User")

email_of : Option Me → Option String
email_of none = none
email_of (some me) = some me.email

total_files : Option FileStats → ℕ
total_files none = 0
total_files (some stats) = stats.total_files

total_bytes : Option FileStats → ℕ
total_bytes none = 0
total_bytes (some stats) = stats.total_bytes

quota_of : Option Me → ℕ
quota_of none = 0
quota_of (some me) = me.storage_quota_bytes

-- the value of the progress bar as a fraction, its numerator first
unfoldable pub usage : Option Me → Option FileStats → ℕ × ℕ
unfolding quota_of total_bytes
usage me stats =
    if quota_of me == 0
    then (0, 1)
    else (min (100 * quota_of me) (100 * total_bytes stats), quota_of me)

header_view : Queries → State → View Action
unfolding display_name
header_view q s =
    if s.editing
    then field "text" "" s.name set_name
      ⊕ clickable q.update_pending save nothing
      ⊕ clickable false cancel nothing
    else element "h1" (text (display_name q) ⊕ clickable false start_editing nothing)

account_view : Queries → View Action
unfolding name_of email_of total_files
account_view q =
    text "Account"
    ⊕ text "Email"
    ⊕ element "dd" (text (or_else (email_of q.me) ""))
    ⊕ text "Name"
    ⊕ element "dd" (text (or_else (name_of q.me) ""))
    ⊕ text "Total files"
    ⊕ element "dd" (text (decimal 16 (total_files q.stats)))

storage_view : Queries → View Action
unfolding format_bytes total_bytes quota_of total_files
storage_view q =
    text "Storage Usage"
    ⊕ element "span" (text (format_bytes (total_bytes q.stats)))
    ⊕ element "span" (text "of " ⊕ text (format_bytes (quota_of q.me)))
    ⊕ element "Progress" nothing
    ⊕ element "p"
        (text (decimal 16 (total_files q.stats)) ⊕ text " files across your whole account.")

unfoldable pub view : Queries → State → View Action
unfolding header_view account_view storage_view display_name email_of user_email
view q s =
    if q.me_loading || q.stats_loading
    then spinner
    else element "AvatarFallback"
        (text (if truthy (display_name q) then slice (display_name q) 0 1 else "U"))
      ⊕ header_view q s
      ⊕ element "p" (text (or_else (email_of q.me) (or_else (user_email q.user) "")))
      ⊕ account_view q
      ⊕ storage_view q

abbrev pub same : Action → Action → Bool
same start_editing start_editing = true
same save save = true
same cancel cancel = true
same (set_name t) (set_name u) = true
same _ _ = false

-- What happens next: an action that the page offers, at the data of the moment, or an answer.
pub data Event : Type 0 where
  acting : Queries → Action → Event
  updated : Answer Me → Event
  session_updated : Event

unfoldable pub step : State → Event → State × List Effect
unfolding perform after_update after_session view
step s (acting q a) = if can (same a) (view q s) then perform q a s else (s, [])
step s (updated a) = (s, after_update a)
step s session_updated = after_session s
