-- ===== src/Pages/PublicShare.antt =====
-- app/share/[token]/page.tsx (frontend): what a visitor of a share link sees. `Queries` is what
-- useQuery returns at a render; a window.open that throws is left out.
pub mod Laws
use optiflow.Prelude.{
  ℕ, ◌+◌, ◌-◌, ◌<◌, Bool, true, false, not, ◌&&◌, Option, none, some, List, [], ◌∷◌, String, truthy,
  if◌then◌else◌, is_some, ltb,
}
use optiflow.Failure.{Failure, api_error, other_error, failure_text, Answer, ok, threw}
use optiflow.Requests.Shares.{PublicShare}
use optiflow.View.{View, nothing, spinner, text, element, link, clickable, field, ◌⊕◌, when, can}
use optiflow.Pages.Files.Cards.{format_bytes}

pub record Queries : Type 0 where
  pub share : Option PublicShare
  pub is_loading : Bool
  pub error : Option Failure

-- `in_flight` counts the calls of getShareDownloadUrl that have not been answered
pub record State : Type 0 where
  pub password : String
  pub download_error : Option String
  pub downloading : Bool
  pub in_flight : ℕ

abbrev pub initial : State
initial = record { password = ""; download_error = none; downloading = false; in_flight = 0 }

pub data Effect : Type 0 where
  get_share_download_url : (token : String) (password : Option String) → Effect
  open_window : (url : String) → Effect

pub data Action : Type 0 where
  set_password : String → Action
  click_download : Action

-- handleDownload up to the `await`, and after it
unfoldable pub handle_download : String → State → State × List Effect
handle_download token s = (
  record s { download_error = none; downloading = true; in_flight = s.in_flight + 1 },
  get_share_download_url token (if truthy s.password then some s.password else none) ∷ [],
)

unfoldable pub after_download : Answer String → State → State × List Effect
after_download (ok url) s =
    (record s { downloading = false; in_flight = s.in_flight - 1 }, open_window url ∷ [])
after_download (threw err) s = (
  record s {
    download_error = some (failure_text "Failed to build download link" err);
    downloading = false;
    in_flight = s.in_flight - 1;
  },
  [],
)

unfoldable pub perform : String → Action → State → State × List Effect
unfolding handle_download
perform token (set_password t) s = (record s { password = t }, [])
perform token click_download s = handle_download token s

error_message : Option Failure → String
error_message (some (api_error e)) = e.message
error_message _ = "This share link is invalid, expired, or has reached its download limit."

not_found_view : Option Failure → View Action
unfolding error_message
not_found_view error =
    text "Link not found" ⊕ text (error_message error) ⊕ link "/" (text "Return Home")

error_view : Option String → View Action
error_view none = nothing
error_view (some error) = when (truthy error) (element "p" (text error))

unfoldable pub share_view : State → PublicShare → View Action
unfolding error_view
share_view s share =
    text share.file_name
    ⊕ element "p" (text (format_bytes share.size_bytes) ⊕ text share.mime_type)
    ⊕ when share.requires_password (
        text "This file is password protected"
        ⊕ field "password" "Enter password" s.password set_password)
    ⊕ error_view s.download_error
    ⊕ clickable s.downloading click_download
        ((if s.downloading then spinner else nothing) ⊕ text "Download")

loaded_view : State → Option Failure → Option PublicShare → View Action
unfolding not_found_view share_view
loaded_view s none (some share) = share_view s share
loaded_view s error share = not_found_view error

unfoldable pub view : Queries → State → View Action
unfolding loaded_view
view q s = if q.is_loading then spinner else loaded_view s q.error q.share

-- What happens next: an action that the page offers, at the data of the moment, or an answer.
pub data Event : Type 0 where
  acting : Queries → Action → Event
  answered : Answer String → Event

abbrev pub same : Action → Action → Bool
same (set_password t) (set_password u) = true
same click_download click_download = true
same _ _ = false

unfoldable pub step : String → State → Event → State × List Effect
unfolding perform after_download view
step token s (acting q a) = if can (same a) (view q s) then perform token a s else (s, [])
step token s (answered a) = if ltb 0 s.in_flight then after_download a s else (s, [])

unfoldable pub run : String → State → List Event → State
run token s [] = s
run token s (e ∷ es) = run token (step token s e).0 es
