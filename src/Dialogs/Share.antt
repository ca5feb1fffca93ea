-- ===== src/Dialogs/Share.antt =====
-- components/files/share-dialog.tsx (frontend). What the hooks return at a render is `Queries`;
-- `N` is the type of JavaScript's numbers and `number` stands for `Number`, `origin` is that of
-- `window`, `none` where there is no window, `distance` stands for formatDistanceToNow, and the
-- clipboard's promise is taken to be kept.
pub mod Offers
pub mod Laws
use optiflow.Prelude.{
  ℕ, Bool, true, false, not, ◌&&◌, ◌||◌, Option, none, some, List, [], ◌∷◌, String, concat, or_else,
  if◌then◌else◌, truthy, is_truthy, is_blank, trim, str_eq, ◌==◌,
}
use optiflow.Failure.{failure_text, Answer, ok, threw}
use optiflow.Requests.Shares.{Share, CreateShareInput}
use optiflow.View.{View, nothing, spinner, text, element, clickable, field, ◌⊕◌, when}
use optiflow.Pages.Files.Cards.{decimal}

pub record ExpiryOption : Type 0 where
  pub label : String
  pub value : String

-- EXPIRY_OPTIONS
unfoldable pub expiry_options : List ExpiryOption
expiry_options =
    record { label = "Never"; value = "never" }
    ∷ record { label = "1 hour"; value = "1" }
    ∷ record { label = "24 hours"; value = "24" }
    ∷ record { label = "7 days"; value = "168" }
    ∷ record { label = "30 days"; value = "720" }
    ∷ []

unfoldable pub share_url : Option String → String → String
share_url none token = concat "/share/" token
share_url (some origin) token = concat origin (concat "/share/" token)

pub record Queries : Type 0 where
  pub shown : Bool
  pub file_id : Option String
  pub file_name : String
  pub shares : Option (List Share)
  pub is_loading : Bool
  pub create_pending : Bool

pub record State : Type 0 where
  pub expires_in : String
  pub password : String
  pub max_downloads : String

abbrev pub initial : State
initial = record { expires_in = "never"; password = ""; max_downloads = "" }

pub data Effect (N : Type 0) : Type 0 where
  create : (file_id : String) → CreateShareInput N → Effect N
  revoke : (id : String) → Effect N
  write_clipboard : String → Effect N
  success_toast error_toast : String → Effect N
  on_open_change : Bool → Effect N

pub data Action : Type 0 where
  set_expires_in set_password set_max_downloads : String → Action
  click_create close : Action
  copy : (token : String) → Action
  click_revoke : (id : String) → Action

module _ {N : Type 0} where
  -- the callbacks of createShare.mutate
  unfoldable pub after_create : Answer Share → State → State × List (Effect N)
  after_create (ok share) s =
      (record s { password = ""; max_downloads = "" }, success_toast "Share link created" ∷ [])
  after_create (threw err) s =
      (s, error_toast (failure_text "Failed to create share link" err) ∷ [])

  unfoldable pub after_revoke : Answer (Unit {0}) → List (Effect N)
  after_revoke (ok u) = success_toast "Share link revoked" ∷ []
  after_revoke (threw err) = error_toast (failure_text "Failed to revoke share link" err) ∷ []

  unfoldable pub handle_copy : Option String → String → List (Effect N)
  unfolding share_url
  handle_copy origin token =
      write_clipboard (share_url origin token) ∷ success_toast "Link copied to clipboard" ∷ []

  handle_revoke : String → List (Effect N)
  handle_revoke id = revoke id ∷ []

  module _ (number : String → N) where
    unfoldable pub payload : State → CreateShareInput N
    payload s = record {
      expires_in_hours = if str_eq s.expires_in "never" then none else some (number s.expires_in);
      password = if truthy (trim s.password) then some (trim s.password) else none;
      max_downloads = if truthy (trim s.max_downloads) then some (number s.max_downloads) else none;
    }

    unfoldable pub handle_create : Option String → State → List (Effect N)
    unfolding payload
    handle_create none s = []
    handle_create (some file_id) s = if truthy file_id then create file_id (payload s) ∷ [] else []

    -- What an action does.
    unfoldable pub perform : Option String → Queries → Action → State → State × List (Effect N)
    unfolding handle_create handle_copy handle_revoke
    perform origin q (set_expires_in t) s = (record s { expires_in = t }, [])
    perform origin q (set_password t) s = (record s { password = t }, [])
    perform origin q (set_max_downloads t) s = (record s { max_downloads = t }, [])
    perform origin q click_create s = (s, handle_create q.file_id s)
    perform origin q close s = (s, on_open_change false ∷ [])
    perform origin q (copy token) s = (s, handle_copy origin token)
    perform origin q (click_revoke id) s = (s, handle_revoke id)

-- the options of the select, each of which can be chosen
unfoldable pub option_list : List ExpiryOption → View Action
option_list [] = nothing
option_list (o ∷ os) = clickable false (set_expires_in o.value) (text o.label) ⊕ option_list os

module _ (origin : Option String) (distance : String → String) where
  limit_text : Option ℕ → String
  limit_text none = ""
  limit_text (some n) = if n == 0 then "" else concat "/" (decimal 16 n)

  expiry_text : Option String → String
  expiry_text none = " · never expires"
  expiry_text (some t) = if truthy t then concat " · expires " (distance t) else " · never expires"

  unfoldable pub share_view : Share → View Action
  unfolding limit_text expiry_text share_url
  share_view share =
      element "p" (text (share_url origin share.token))
      ⊕ element "p" (
          text (decimal 16 share.download_count)
          ⊕ text (limit_text share.max_downloads)
          ⊕ text " downloads"
          ⊕ text (expiry_text share.expires_at)
          ⊕ when share.requires_password (text " · password protected"))
      ⊕ clickable false (copy share.token) nothing
      ⊕ clickable false (click_revoke share.id) nothing

  unfoldable pub share_list : List Share → View Action
  unfolding share_view
  share_list [] = nothing
  share_list (share ∷ shares) = share_view share ⊕ share_list shares

  shares_view : List Share → View Action
  unfolding share_list
  shares_view [] = element "p" (text "No share links yet.")
  shares_view shares = share_list shares

  unfoldable pub view : Queries → State → View Action
  unfolding option_list shares_view expiry_options
  view q s = when q.shown (
      text "Share"
      ⊕ text q.file_name
      ⊕ text
          "Anyone with the link can view and download this file, subject to the limits you set below."
      ⊕ text "Expires"
      ⊕ element "select" (option_list expiry_options)
      ⊕ text "Password (optional)"
      ⊕ field "password" "None" s.password set_password
      ⊕ text "Max downloads"
      ⊕ field "number" "Unlimited" s.max_downloads set_max_downloads
      ⊕ clickable (q.create_pending || not (is_truthy q.file_id)) click_create
          ((if q.create_pending then spinner else nothing) ⊕ text "Create link")
      ⊕ text "Active links"
      ⊕ (if q.is_loading then spinner else shares_view (or_else q.shares []))
      ⊕ clickable false close (text "Done"))
