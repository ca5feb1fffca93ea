-- ===== src/Tests/FileTests.antt =====
-- app/dashboard/files/page.tsx at concrete inputs.
use optiflow.Prelude.{
  includes, ◌*◌, ◌≡◌, refl, true, false, none, some, List, [], ◌∷◌, String, is_blank,
}
use optiflow.Failure.{ok}
use optiflow.Pages.Files.{
  Queries, initial, Effect, set_folder_dialog, set_new_folder_name, create, folder_created,
}
use optiflow.Pages.Files.Cards.{format_bytes, get_file_icon, video_icon, file_text_icon}
use optiflow.Pages.Files.Page.{view}
use optiflow.Pages.Files.Run.{Event, acting, answering, step, run}

abbrev empty : Queries
empty = record {
  current_folder_id = none;
  folders = some [];
  files = some [];
  root_folders = some [];
  folders_loading = false;
  files_loading = false;
  create_folder_pending = false;
  update_folder_pending = false;
  delete_folder_pending = false;
  update_file_pending = false;
  delete_file_pending = false;
  thumbnail_url = λ id. none;
}

abbrev plain : String → String
plain s = s

abbrev named : List Event
named = acting empty (set_folder_dialog true) ∷ acting empty (set_new_folder_name "docs") ∷ []

-- the folder is created, and the dialog closes when it was
creates :
    ((step plain plain (run plain plain initial named) (acting empty create)).1
      ≡ Effect.create_folder "docs" none ∷ [])
    × ((step plain plain
          (run plain plain initial named)
          (answering (folder_created (ok tt)))).0.is_folder_dialog_open
        ≡ false)
unfolding step run view is_blank
creates = (refl, refl)

sizes :
    (format_bytes 0 ≡ "0 B")
    × (format_bytes 1023 ≡ "1023 B")
    × (format_bytes 1536 ≡ "1.5 KB")
    × (format_bytes (1024 * 1024 * 1024 * 5) ≡ "5 GB")
    × (format_bytes (1024 * 1024 * 1024 * 1024) ≡ "1 undefined")
unfolding format_bytes
sizes = (refl, refl, refl, refl, refl)

icons :
    (get_file_icon "video/mp4" ≡ video_icon) × (get_file_icon "application/pdf" ≡ file_text_icon)
unfolding get_file_icon includes
icons = (refl, refl)
