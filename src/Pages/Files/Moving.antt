-- ===== src/Pages/Files/Moving.antt =====
-- app/dashboard/files/page.tsx: the destinations that are offered for a folder.
use optiflow.Prelude.{
  ◌≡◌, refl, Bool, true, false, not, ◌||◌, Option, none, some, List, [], ◌∷◌, String, str_eq,
  str_eq_iff, arith, if◌then◌else◌, or_else,
}
use optiflow.Requests.Folders.{Folder}
use optiflow.View.{can}
use optiflow.Pages.Files.{
  start_move, set_share_file, set_play_file, set_versions_file, Queries, State, Effect,
  set_move_target, perform, on_answer,
}
use optiflow.Pages.Files.Run.{same, Event, acting, answering, step, run}
use optiflow.Pages.Files.Page.{
  each, view, header_view, toggle_view, rename_folder_view, delete_folder_view, rename_file_view,
  delete_file_view, named_dialog, move_options, folder_option, move_folder_view,
}
use optiflow.Pages.Files.Offers.{listing_none, view_parts, dialogs_parts}

-- Whether a target of a move is not the folder that is moved.
abbrev pub is_elsewhere : Option Folder → String → Bool
is_elsewhere none t = true
is_elsewhere (some f) t = str_eq t "root" || not (str_eq t f.id)

if_elsewhere :
    (b : Bool) (x y : State × List Effect)
    → is_elsewhere x.0.move_folder x.0.move_target ≡ true
    → is_elsewhere y.0.move_folder y.0.move_target ≡ true
    → is_elsewhere (if b then x else y).0.move_folder (if b then x else y).0.move_target ≡ true
if_elsewhere true x y h k = h
if_elsewhere false x y h k = k

options_target :
    (t : String) (f : Folder) (xs : List Folder)
    → t ≡ f.id
    → can (same (set_move_target t)) (each folder_option (move_options f xs)) ≡ false
unfolding each move_options
options_target t f [] e = refl
options_target t f (x ∷ xs) e =
    ground (arith, e, options_target t f xs e, str_eq_iff x.id f.id, str_eq_iff t x.id)

move_target :
    (t : String) (q : Queries) (s : State) (f : Folder)
    → t ≡ f.id
    → can (same (set_move_target t)) (move_folder_view q s (some f)) ≡ str_eq t "root"
unfolding move_folder_view
move_target t q s f e = ground (arith, options_target t f (or_else q.root_folders []) e)

parts-target :
    (lower : String → String) (t : String) (q : Queries) (s : State)
    → let p = same (set_move_target t) in
      (can p (header_view lower q s) ≡ false)
      × (can p (toggle_view lower) ≡ false)
      × (can p (rename_folder_view q s) ≡ false)
      × (can p (delete_folder_view q s) ≡ false)
      × (can p (rename_file_view q s) ≡ false)
      × (can p (delete_file_view q s) ≡ false)
      × (can p (named_dialog "ShareDialog" s.share_file set_share_file) ≡ false)
      × (can p (named_dialog "VideoPlayerDialog" s.play_file set_play_file) ≡ false)
      × (can p (named_dialog "VersionHistoryDialog" s.versions_file set_versions_file) ≡ false)
unfolding header_view toggle_view rename_folder_view delete_folder_view rename_file_view
    delete_file_view
parts-target lower t q s = ground arith

module _ (lower distance : String → String) where
  pub can_target :
      (t : String) (q : Queries) (s : State) (f : Folder)
      → s.move_folder ≡ some f
      → can (same (set_move_target t)) (view lower distance q s) ≡ true
      → t ≡ f.id
      → t ≡ "root"
  can_target t q s f m h e = ground (
    arith,
    h,
    m,
    view_parts lower distance (same (set_move_target t)) q s,
    dialogs_parts (same (set_move_target t)) q s,
    listing_none lower distance q s (set_move_target t) refl,
    parts-target lower t q s,
    move_target t q s f e,
    str_eq_iff t "root",
  )

  elsewhere_at :
      (t : String) (q : Queries) (s : State) (m : Option Folder)
      → s.move_folder ≡ m
      → can (same (set_move_target t)) (view lower distance q s) ≡ true
      → is_elsewhere m t ≡ true
  elsewhere_at t q s none e h = refl
  elsewhere_at t q s (some f) e h =
      ground (arith, str_eq_iff t f.id, str_eq_iff t "root", can_target t q s f e h)

  step-is_elsewhere :
      (s : State) (e : Event)
      → is_elsewhere s.move_folder s.move_target ≡ true
      → is_elsewhere (step lower distance s e).0.move_folder (step lower distance s e).0.move_target
        ≡ true
  unfolding step perform on_answer
  step-is_elsewhere s (acting q (set_move_target t)) h =
      ground (arith, h, elsewhere_at t q s s.move_folder refl)
  step-is_elsewhere s (acting q (start_move f)) h =
      if_elsewhere (can (same (start_move f)) (view lower distance q s)) _ _ refl h
  step-is_elsewhere s (acting q _) h = ground (arith, h)
  step-is_elsewhere s (answering a) h = ground (arith, h)

  pub run-is_elsewhere :
      (s : State) (es : List Event)
      → is_elsewhere s.move_folder s.move_target ≡ true
      → is_elsewhere (run lower distance s es).move_folder (run lower distance s es).move_target
        ≡ true
  unfolding run
  run-is_elsewhere s [] h = h
  run-is_elsewhere s (e ∷ es) h =
      run-is_elsewhere (step lower distance s e).0 es (step-is_elsewhere s e h)
