-- ===== src/Pages/SharedLinks.antt =====
-- app/dashboard/shared/page.tsx, MyShareLinksPage, and components/not-yet-available.tsx (frontend).
-- shareUrl and what follows a revocation are the same texts as in the share dialog. `origin` and
-- `distance` are those of the dialog.
pub mod Laws
use optiflow.Prelude.{
  ℕ, Bool, true, false, Option, none, some, List, [], ◌∷◌, String, concat, or_else, truthy,
  if◌then◌else◌, ◌==◌,
}
use optiflow.Failure.{failure_text, Answer, ok, threw}
use optiflow.Requests.Shares.{Share}
use optiflow.View.{View, nothing, spinner, text, element, clickable, ◌⊕◌, when}
use optiflow.Pages.Files.Cards.{decimal}
use optiflow.Dialogs.Share.{share_url}

pub record Queries : Type 0 where
  pub shares : Option (List Share)
  pub is_loading : Bool

pub data Action : Type 0 where
  copy : (token : String) → Action
  click_revoke : (id : String) → Action

pub data Effect : Type 0 where
  write_clipboard : String → Effect
  revoke : (id : String) → Effect
  success_toast error_toast : String → Effect

unfoldable pub handle_copy : Option String → String → List Effect
unfolding share_url
handle_copy origin token =
    write_clipboard (share_url origin token) ∷ success_toast "Link copied to clipboard" ∷ []

unfoldable pub handle_revoke : String → List Effect
handle_revoke id = revoke id ∷ []

unfoldable pub after_revoke : Answer (Unit {0}) → List Effect
after_revoke (ok u) = success_toast "Share link revoked" ∷ []
after_revoke (threw err) = error_toast (failure_text "Failed to revoke share link" err) ∷ []

-- What a click does.
unfoldable pub on_click : Option String → Action → List Effect
unfolding handle_copy handle_revoke
on_click origin (copy token) = handle_copy origin token
on_click origin (click_revoke id) = handle_revoke id

-- NotYetAvailable
not_yet_available : String → String → View Action
not_yet_available title description = element "h3" (text title) ⊕ element "p" (text description)

limit_text : Option ℕ → String
limit_text none = ""
limit_text (some n) = if n == 0 then "" else concat "/" (decimal 16 n)

module _ (origin : Option String) (distance : String → String) where
  expiry_text : Option String → String
  expiry_text none = "never expires"
  expiry_text (some t) = if truthy t then concat "expires " (distance t) else "never expires"

  unfoldable pub share_view : Share → View Action
  unfolding limit_text expiry_text share_url
  share_view share = element "div" (
      element "p" (text share.file_name)
      ⊕ element "p" (text (share_url origin share.token))
      ⊕ element "p" (
          text (decimal 16 share.download_count)
          ⊕ text (limit_text share.max_downloads)
          ⊕ text " downloads · "
          ⊕ text (expiry_text share.expires_at)
          ⊕ when share.requires_password (text " · password protected")
          ⊕ text " · created "
          ⊕ text (distance share.created_at))
      ⊕ clickable false (copy share.token) (text "Copy")
      ⊕ clickable false (click_revoke share.id) nothing)

  unfoldable pub share_list : List Share → View Action
  unfolding share_view
  share_list [] = nothing
  share_list (share ∷ shares) = share_view share ⊕ share_list shares

  shares_view : List Share → View Action
  unfolding share_list not_yet_available
  shares_view [] =
      not_yet_available "No share links yet"
        "Create one from a file's options menu in My Files — it'll show up here."
  shares_view shares = share_list shares

  unfoldable pub view : Queries → View Action
  unfolding shares_view
  view q =
      element "h1" (text "My Share Links")
      ⊕ element "p" (
          text
            "Public links you've created from the file manager. Directed user-to-user sharing isn't built yet.")
      ⊕ (if q.is_loading then spinner else shares_view (or_else q.shares []))
