-- ===== src/Tests/DialogTests.antt =====
-- The dialogs at concrete inputs.
use optiflow.Prelude.{Bool, ◌≡◌, refl, true, false, none, some, [], ◌∷◌, String}
use optiflow.Requests.Files.{FileRecord, ready}
use optiflow.Versions.{idle}
use optiflow.View.{can}
use optiflow.Dialogs.VersionHistory.{
  Queries, view, version_list, version_view, restore, select_restore, on_click,
}
use optiflow.Dialogs.VersionHistory.Laws.{restores}

abbrev version : String → Bool → FileRecord
version id current = record {
  id = id;
  name = "a.mp4";
  user_id = "u1";
  folder_id = none;
  size_bytes = 10;
  mime_type = "video/mp4";
  status = ready;
  thumbnail_key = none;
  playlist_key = none;
  version = 1;
  parent_id = none;
  is_current = current;
  created_at = "";
  updated_at = "";
}

abbrev two_versions : Queries
two_versions = record {
  shown = true;
  file_name = "a.mp4";
  versions = some (version "f2" true ∷ version "f1" false ∷ []);
  is_loading = false;
  restore_pending = false;
  upload_state = idle;
}

-- the older version can be restored, the current one cannot
offers :
    (can (restores "f1") (view (λ s. s) two_versions) ≡ true)
    × (can (restores "f2") (view (λ s. s) two_versions) ≡ false)
    × (on_click (select_restore "f1") ≡ restore "f1" ∷ [])
unfolding view on_click version_list version_view
offers = (refl, refl, refl)
