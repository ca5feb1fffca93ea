-- ===== src/Pages/Files/Run.antt =====
-- app/dashboard/files/page.tsx: what a user can do on the page, and what comes of it.
use optiflow.Prelude.{ℕ, Bool, ◌&&◌, some, List, [], ◌∷◌, String, str_eq, if◌then◌else◌, ◌==◌}
use optiflow.View.{can}
use optiflow.Pages.Files.{
  Queries, State, Effect, Action, Answered, go_back, push, set_view_mode, set_search_query,
  set_new_folder_name, retype_folder, retype_file, set_move_target, set_folder_dialog,
  set_upload_dialog, set_rename_folder, set_rename_file, set_share_file, set_play_file,
  set_versions_file, start_move, end_move, set_delete_folder, set_delete_file, create,
  rename_the_folder, move_the_folder, delete_the_folder, rename_the_file, delete_the_file, download,
  perform, on_answer,
}
use optiflow.Pages.Files.Page.{view}

-- An action up to the text that is typed, which may be any.
abbrev pub tag : Action → ℕ
tag go_back = 0
tag (push path) = 1
tag (set_view_mode m) = 2
tag (set_search_query t) = 3
tag (set_new_folder_name t) = 4
tag (retype_folder t) = 5
tag (retype_file t) = 6
tag (set_move_target t) = 7
tag (set_folder_dialog b) = 8
tag (set_upload_dialog b) = 9
tag (set_rename_folder n) = 10
tag (set_rename_file n) = 11
tag (set_share_file n) = 12
tag (set_play_file n) = 13
tag (set_versions_file n) = 14
tag (start_move f) = 15
tag end_move = 16
tag (set_delete_folder id) = 17
tag (set_delete_file id) = 18
tag create = 19
tag rename_the_folder = 20
tag move_the_folder = 21
tag delete_the_folder = 22
tag rename_the_file = 23
tag delete_the_file = 24
tag (download id) = 25

-- what an action is about, where it is not typed
abbrev pub subject : Action → String
subject (push path) = path
subject (set_move_target t) = t
subject (set_rename_folder (some n)) = n.id
subject (set_rename_file (some n)) = n.id
subject (set_share_file (some n)) = n.id
subject (set_play_file (some n)) = n.id
subject (set_versions_file (some n)) = n.id
subject (start_move f) = f.id
subject (set_delete_folder (some id)) = id
subject (set_delete_file (some id)) = id
subject (download id) = id
subject _ = ""

abbrev pub same : Action → Action → Bool
same a b = (tag a == tag b) && str_eq (subject a) (subject b)

-- What happens next on the page: an action of the user, at the data of the moment, or an answer.
pub data Event : Type 0 where
  acting : Queries → Action → Event
  answering : Answered → Event

module _ (lower distance : String → String) where
  -- An action of the user takes place if the page offers it.
  unfoldable pub step : State → Event → State × List Effect
  unfolding perform on_answer
  step s (acting q a) = if can (same a) (view lower distance q s) then perform q s a else (s, [])
  step s (answering a) = on_answer s a

  unfoldable pub run : State → List Event → State
  run s [] = s
  run s (e ∷ es) = run (step s e).0 es
