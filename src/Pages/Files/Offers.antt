-- ===== src/Pages/Files/Offers.antt =====
-- app/dashboard/files/page.tsx: when the button of each dialog can be clicked.
use optiflow.Prelude.{
  ◌≡◌, refl, Bool, true, false, not, ◌&&◌, ◌||◌, Option, none, some, List, [], ◌∷◌, String,
  is_blank, is_some, is_truthy, arith, ◌==◌, or_else,
}
use optiflow.Requests.Files.{FileRecord}
use optiflow.Requests.Folders.{Folder}
use optiflow.View.{View, can}
use optiflow.Pages.Files.{
  set_share_file, set_play_file, set_versions_file, Queries, State, Action, create,
  rename_the_folder, move_the_folder, delete_the_folder, rename_the_file, delete_the_file,
}
use optiflow.Pages.Files.Cards.{folder_card, file_card}
use optiflow.Pages.Files.Run.{same, tag}
use optiflow.Pages.Files.Page.{
  each, view, header_view, toggle_view, listing_view, rename_folder_view, delete_folder_view,
  rename_file_view, delete_file_view, named_dialog, name_of, move_options, shown_folders,
  shown_files, folder_option, move_folder_view, dialogs,
}

pub can-each :
    {A : Type 0} (p : Action → Bool) (card : A → View Action) (xs : List A)
    → ((x : A) → can p (card x) ≡ false)
    → can p (each card xs) ≡ false
unfolding each
can-each p card [] h = refl
can-each p card (x ∷ xs) h = ground (arith, h x, can-each p card xs h)

-- The actions that the list of folders and files does not offer.
abbrev pub is_dialog : Action → Bool
is_dialog a =
    (tag a == 7)
    || ((tag a == 19)
        || ((tag a == 20)
            || ((tag a == 21) || ((tag a == 22) || ((tag a == 23) || (tag a == 24))))))

module _ (distance : String → String) where
  folder_none :
      (f : Folder) (a : Action) → is_dialog a ≡ true → can (same a) (folder_card distance f) ≡ false
  unfolding folder_card
  folder_none f a h = ground arith

  file_none :
      (q : Queries) (f : FileRecord) (a : Action)
      → is_dialog a ≡ true
      → can (same a) (file_card distance q f) ≡ false
  unfolding file_card
  file_none q f a h = ground arith

module _ (lower distance : String → String) where
  pub listing_none :
      (q : Queries) (s : State) (a : Action)
      → is_dialog a ≡ true
      → can (same a) (listing_view lower distance q s) ≡ false
  unfolding listing_view
  listing_none q s a h = ground (
    arith,
    can-each (same a) (folder_card distance) (shown_folders lower q s)
        (λ f. folder_none distance f a h),
    can-each (same a) (file_card distance q) (shown_files lower q s)
        (λ f. file_none distance q f a h),
  )

  pub view_parts :
      (p : Action → Bool) (q : Queries) (s : State)
      → can p (view lower distance q s) ≡ (
          can p (header_view lower q s)
          || (can p (toggle_view lower)
              || (can p (listing_view lower distance q s) || can p (dialogs q s))))
  unfolding view
  view_parts p q s = refl

pub dialogs_parts :
    (p : Action → Bool) (q : Queries) (s : State)
    → can p (dialogs q s) ≡ (
        can p (rename_folder_view q s)
        || (can p (move_folder_view q s s.move_folder)
            || (can p (delete_folder_view q s)
                || (can p (rename_file_view q s)
                    || (can p (delete_file_view q s)
                        || (can p (named_dialog "ShareDialog" s.share_file set_share_file)
                            || (can p (named_dialog "VideoPlayerDialog" s.play_file set_play_file)
                                || can p (
                                    named_dialog "VersionHistoryDialog" s.versions_file
                                      set_versions_file))))))))
unfolding dialogs
dialogs_parts p q s = refl

-- The buttons of the dialogs other than the select's.
abbrev pub sends : Action → Bool
sends create = true
sends rename_the_folder = true
sends move_the_folder = true
sends delete_the_folder = true
sends rename_the_file = true
sends delete_the_file = true
sends _ = false

options_none :
    (a : Action) (q : Queries) (f : Folder)
    → (tag a == 7) ≡ false
    → can (same a) (each folder_option (move_options f (or_else q.root_folders []))) ≡ false
options_none a q f h = can-each (same a) folder_option _ (λ g. ground (arith, h))

move_none :
    (a : Action) (q : Queries) (s : State) (m : Option Folder)
    → sends a ≡ true
    → can (same a) (move_folder_view q s m)
      ≡ (is_some m && (not q.update_folder_pending && (tag a == 21)))
unfolding move_folder_view
move_none a q s none h = refl
move_none create q s (some f) h = ground (arith, options_none create q f refl)
move_none rename_the_folder q s (some f) h = ground (arith, options_none rename_the_folder q f refl)
move_none move_the_folder q s (some f) h = ground (arith, options_none move_the_folder q f refl)
move_none delete_the_folder q s (some f) h = ground (arith, options_none delete_the_folder q f refl)
move_none rename_the_file q s (some f) h = ground (arith, options_none rename_the_file q f refl)
move_none delete_the_file q s (some f) h = ground (arith, options_none delete_the_file q f refl)
move_none _ q s (some f) h = ground (arith, h)

-- When a button that sends something can be clicked.
abbrev pub offered : Queries → State → Action → Bool
offered q s create =
    s.is_folder_dialog_open && not (q.create_folder_pending || is_blank s.new_folder_name)
offered q s rename_the_folder =
    is_some s.rename_folder && not (q.update_folder_pending || is_blank (name_of s.rename_folder))
offered q s move_the_folder = is_some s.move_folder && not q.update_folder_pending
offered q s delete_the_folder = is_truthy s.delete_folder_id && not q.delete_folder_pending
offered q s rename_the_file =
    is_some s.rename_file && not (q.update_file_pending || is_blank (name_of s.rename_file))
offered q s delete_the_file = is_truthy s.delete_file_id && not q.delete_file_pending
offered q s _ = false

sends-is_dialog : (a : Action) → sends a ≡ true → is_dialog a ≡ true
sends-is_dialog a k = ground (arith, k)

-- Where a button that sends something stands, and when it can be clicked.
parts-sends :
    (lower : String → String) (a : Action) (q : Queries) (s : State)
    → sends a ≡ true
    → (can (same a) (header_view lower q s) ≡ (
        (tag a == 19)
        && (s.is_folder_dialog_open
            && not (q.create_folder_pending || is_blank s.new_folder_name))))
      × (can (same a) (toggle_view lower) ≡ false)
      × (can (same a) (rename_folder_view q s) ≡ (
          (tag a == 20)
          && (is_some s.rename_folder
              && not (q.update_folder_pending || is_blank (name_of s.rename_folder)))))
      × (can (same a) (delete_folder_view q s)
          ≡ ((tag a == 22) && (is_truthy s.delete_folder_id && not q.delete_folder_pending)))
      × (can (same a) (rename_file_view q s) ≡ (
          (tag a == 23)
          && (is_some s.rename_file
              && not (q.update_file_pending || is_blank (name_of s.rename_file)))))
      × (can (same a) (delete_file_view q s)
          ≡ ((tag a == 24) && (is_truthy s.delete_file_id && not q.delete_file_pending)))
      × (can (same a) (named_dialog "ShareDialog" s.share_file set_share_file) ≡ false)
      × (can (same a) (named_dialog "VideoPlayerDialog" s.play_file set_play_file) ≡ false)
      × (can (same a) (named_dialog "VersionHistoryDialog" s.versions_file set_versions_file)
          ≡ false)
unfolding header_view toggle_view rename_folder_view delete_folder_view rename_file_view
    delete_file_view
parts-sends lower create q s k = ground arith
parts-sends lower rename_the_folder q s k = ground arith
parts-sends lower move_the_folder q s k = ground arith
parts-sends lower delete_the_folder q s k = ground arith
parts-sends lower rename_the_file q s k = ground arith
parts-sends lower delete_the_file q s k = ground arith
parts-sends lower _ q s k = ground (arith, k)

module _ (lower distance : String → String) where
  can-sends :
      (a : Action) (q : Queries) (s : State)
      → sends a ≡ true
      → can (same a) (view lower distance q s) ≡ (
          ((tag a == 19)
            && (s.is_folder_dialog_open
                && not (q.create_folder_pending || is_blank s.new_folder_name)))
          || (((tag a == 20)
                && (is_some s.rename_folder
                    && not (q.update_folder_pending || is_blank (name_of s.rename_folder))))
              || ((is_some s.move_folder && (not q.update_folder_pending && (tag a == 21)))
                  || (((tag a == 22)
                        && (is_truthy s.delete_folder_id && not q.delete_folder_pending))
                      || (((tag a == 23)
                            && (is_some s.rename_file
                                && not (q.update_file_pending || is_blank (name_of s.rename_file))))
                          || ((tag a == 24)
                              && (is_truthy s.delete_file_id && not q.delete_file_pending)))))))
  can-sends a q s k = ground (
    arith,
    k,
    view_parts lower distance (same a) q s,
    dialogs_parts (same a) q s,
    listing_none lower distance q s a (sends-is_dialog a k),
    move_none a q s s.move_folder k,
    parts-sends lower a q s k,
  )

  -- At any state and data, each button that creates, renames, moves or deletes can be clicked
  -- exactly if its dialog is shown, no mutation of its kind is running, and the name, where there
  -- is one, is not blank.
  pub can-offered :
      (a : Action) (q : Queries) (s : State)
      → sends a ≡ true
      → can (same a) (view lower distance q s) ≡ offered q s a
  can-offered create q s k = ground (arith, can-sends create q s refl)
  can-offered rename_the_folder q s k = ground (arith, can-sends rename_the_folder q s refl)
  can-offered move_the_folder q s k = ground (arith, can-sends move_the_folder q s refl)
  can-offered delete_the_folder q s k = ground (arith, can-sends delete_the_folder q s refl)
  can-offered rename_the_file q s k = ground (arith, can-sends rename_the_file q s refl)
  can-offered delete_the_file q s k = ground (arith, can-sends delete_the_file q s refl)
  can-offered _ q s k = ground (arith, k)
