-- ===== src/Tests/ScreenTests.antt =====
-- The share, upload and video dialogs, the public page of a link, the profile and the sizes of the
-- dashboard at concrete inputs.
use optiflow.Prelude.{
  ℕ, ◌+◌, ◌*◌, ◌≡◌, refl, true, false, Option, none, some, List, [], ◌∷◌, arith, String, str_eq,
  ltb, All, is_blank, trim_start, trim_end, if◌then◌else◌, nat_eq,
}
use optiflow.Dialogs.Share as Share
use optiflow.Dialogs.Share.Laws as ShareLaws
use optiflow.Pages.PublicShare as Public
use optiflow.Dialogs.Upload as Upload
use optiflow.Upload.{File}
use optiflow.Dialogs.VideoPlayer as Video
use optiflow.Pages.Dashboard.{format_bytes}
use optiflow.Sharing.{request_of, body_of, link-download}
use optiflow.Server.Shares.{StoredFile, refused, first_share, admit, check_file}
use optiflow.Server.Shares.Creation.{create_share, hour}
use optiflow.Requests.Accounts.{Me}
use optiflow.Auth.{Jwt, Session}
use optiflow.Pages.Profile as Profile

abbrev number : String → ℕ
number t = if str_eq t "24" then 24 else (if str_eq t "3" then 3 else 0)

abbrev distance : String → String
distance t = t

abbrev shares : Share.Queries
shares = record {
  shown = true;
  file_id = some "f";
  file_name = "a.txt";
  shares = none;
  is_loading = false;
  create_pending = false;
}

abbrev filled : List ShareLaws.Event
filled =
    ShareLaws.acting shares (Share.set_expires_in "24")
    ∷ ShareLaws.acting shares (Share.set_password " p")
    ∷ ShareLaws.acting shares (Share.set_max_downloads "3")
    ∷ []

typed_tested :
    ShareLaws.run number none distance Share.initial filled
    ≡ record { expires_in = "24"; password = " p"; max_downloads = "3" }
unfolding ShareLaws.run ShareLaws.step Share.view
typed_tested = refl

run-creates-IsSound_example :
    All
      (ShareLaws.IsSound number none distance shares
        (ShareLaws.run number none distance Share.initial filled))
      (ShareLaws.step number none distance
        (ShareLaws.run number none distance Share.initial filled)
        (ShareLaws.acting shares Share.click_create)).1
    × (ShareLaws.creations number none distance
          (ShareLaws.step number none distance
            (ShareLaws.run number none distance Share.initial filled)
            (ShareLaws.acting shares Share.click_create)).1
        ≡ 1)
run-creates-IsSound_example =
    ShareLaws.run-creates-IsSound number none distance filled shares Share.click_create

abbrev dialog : Share.State
dialog = record { expires_in = "24"; password = " p"; max_downloads = "3" }

abbrev visitor : Public.State
visitor = record { password = " p"; download_error = none; downloading = false; in_flight = 0 }

abbrev files : ℕ → Option StoredFile
files id = some (record { is_ready = true; storage_key = "k" })

abbrev sign : String → Option String
sign key = some "u"

abbrev hash : String → Option String
hash p = some p

-- the visitor types the password as the owner did
link-download_example :
    (admit str_eq files sign 9 "s"
      (body_of (Public.handle_download "s" visitor).1)
      (create_share hash 4 3 7 2 true (some "s") (request_of (Share.payload number dialog)) []).0).1
    ≡ (if ltb (4 + 24 * hour) 9
        then refused 404 "share link not found or expired"
        else (if str_eq "p" " p"
            then check_file str_eq files sign (files 2)
            else refused 401 "incorrect password"))
unfolding first_share is_blank trim_start trim_end
link-download_example =
    link-download number hash str_eq files sign 9 4 3 7 2 "s" "p" 24 3 [] dialog visitor refl refl
      (omega arith) (omega arith) refl refl refl refl (omega arith) refl

-- and is refused, because the dialog has taken the blank away
untrimmed_refused :
    (if ltb (4 + 24 * hour) 9
      then refused 404 "share link not found or expired"
      else (if str_eq "p" " p"
          then check_file str_eq files sign (files 2)
          else refused 401 "incorrect password"))
    ≡ refused 401 "incorrect password"
untrimmed_refused = refl

abbrev loaded : Public.Queries
loaded = record {
  share = some (record {
    file_name = "a.txt";
    size_bytes = 3;
    mime_type = "text/plain";
    requires_password = false;
    has_thumbnail = false;
  });
  is_loading = false;
  error = none;
}

abbrev visit : List Public.Event
visit = Public.acting loaded Public.click_download ∷ []

visit_tested : (Public.run "s" Public.initial visit).in_flight ≡ 1
unfolding Public.run Public.step Public.view
visit_tested = refl

abbrev dropped : List File
dropped =
    record { name = "a"; type = "image/png"; size = 1 }
    ∷ record { name = "b"; type = ""; size = 2 }
    ∷ []

abbrev empty_dialog : Upload.State
empty_dialog = record {
  is_dragging = true;
  hook = record { folder_id = none; upload_counter = 4; uploads = [] };
}

abbrev browser : Video.Browser
browser = record { has_video = true; hls_supported = true; plays_natively = false }

-- one video after another
abbrev two_videos : List Video.Happening
two_videos =
    Video.rendering browser true (some "a")
    ∷ Video.parsing 0
    ∷ Video.rendering browser true (some "b")
    ∷ []

size_tested : format_bytes 1587 ≡ "1.55 KB"
unfolding format_bytes
size_tested = refl

abbrev renamed : Me
renamed = record { id = "7"; email = "a@b.c"; name = "New"; storage_quota_bytes = 100 }

abbrev profile : Profile.Queries
profile = record {
  user = none;
  me = none;
  me_loading = false;
  stats = none;
  stats_loading = false;
  update_pending = false;
}

abbrev token : Jwt
token = record { id = some "7"; name = some "Old"; access_token = some "t"; refresh_token = none }

abbrev before : Session
before = record { user_id = none; user_name = none; access_token = none; refresh_token = none }
