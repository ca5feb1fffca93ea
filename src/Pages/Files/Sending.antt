-- ===== src/Pages/Files/Sending.antt =====
-- app/dashboard/files/page.tsx: how many requests a button of a dialog makes.
use optiflow.Prelude.{
  ◌≡◌, Bool-cases, inl, inr, refl, true, Option, some, length, String, arith, if◌then◌else◌,
}
use optiflow.Requests.Folders.{Folder}
use optiflow.Pages.Files.{
  handle_create_folder, handle_rename_folder, handle_move_folder, handle_delete_folder,
  handle_rename_file, handle_delete_file, Queries, State, Named, Action, create, rename_the_folder,
  move_the_folder, rename_the_file, delete_the_folder, delete_the_file, perform,
}
use optiflow.Pages.Files.Run.{acting, step}
use optiflow.Pages.Files.Offers.{offered, sends, can-offered}

-- What is sent where the button of a dialog can be clicked.
perform-sends :
    (q : Queries) (s : State) (a : Action) (m n : Option Named) (f : Option Folder)
    (x y : Option String)
    → s.rename_folder ≡ m
    → s.rename_file ≡ n
    → s.move_folder ≡ f
    → s.delete_folder_id ≡ x
    → s.delete_file_id ≡ y
    → offered q s a ≡ true
    → sends a ≡ true
    → length (perform q s a).1 ≡ 1
unfolding perform handle_create_folder handle_rename_folder handle_move_folder handle_delete_folder
    handle_rename_file handle_delete_file
perform-sends q s create m n f x y p1 p2 p3 p4 p5 o k = ground (arith, o)
perform-sends q s rename_the_folder (some m) n f x y p1 p2 p3 p4 p5 o k = ground (arith, o, p1)
perform-sends q s move_the_folder m n (some f) x y p1 p2 p3 p4 p5 o k = ground (arith, o, p3)
perform-sends q s delete_the_folder m n f (some x) y p1 p2 p3 p4 p5 o k = ground (arith, o, p4)
perform-sends q s rename_the_file m (some n) f x y p1 p2 p3 p4 p5 o k = ground (arith, o, p2)
perform-sends q s delete_the_file m n f x (some y) p1 p2 p3 p4 p5 o k = ground (arith, o, p5)
perform-sends q s _ m n f x y p1 p2 p3 p4 p5 o k = ground (arith, o, k, p1, p2, p3, p4, p5)

module _ (lower distance : String → String) where
  pub step-sends :
      (q : Queries) (s : State) (a : Action)
      → sends a ≡ true
      → length (step lower distance s (acting q a)).1 ≡ (if offered q s a then 1 else 0)
  unfolding step
  step-sends q s a k = elim (Bool-cases (offered q s a)) [
    | inl o ↦ ground (
      arith,
      o,
      can-offered lower distance a q s k,
      perform-sends q s a s.rename_folder s.rename_file s.move_folder s.delete_folder_id
          s.delete_file_id refl refl refl refl refl o k,
    )
    | inr n ↦ ground (arith, n, can-offered lower distance a q s k)
  ]
