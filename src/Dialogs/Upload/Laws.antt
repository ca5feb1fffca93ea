-- ===== src/Dialogs/Upload/Laws.antt =====
-- components/files/upload-dialog.tsx: which uploads the dialog shows.
use optiflow.Prelude.{
  ℕ, suc, ◌+◌, ◌≡◌, refl, sym, ap, ◌∙◌, Bool, true, false, not, ◌&&◌, ◌||◌, none, some, List, [],
  ◌∷◌, ◌++◌, any, arith, ltb, leb, length, filter, ◌==◌,
}
use optiflow.Upload.{File, Effect, uploading, UploadItem, Hook, start_upload, dismiss_upload}
use optiflow.View.{can}
use optiflow.Dialogs.Upload.{
  State, Action, dismiss, drop, handle_files, handle_given, lifted, perform, upload_view,
  status_view, icon_view, upload_list, view,
}

-- the button that dismisses the upload with an id
abbrev pub dismisses : ℕ → Action → Bool
dismisses id (dismiss i) = i == id
dismisses id _ = false

abbrev has : ℕ → List UploadItem → Bool
has id us = any (λ u. u.id == id) us

list_dismisses : (id : ℕ) (us : List UploadItem) → can (dismisses id) (upload_list us) ≡ has id us
unfolding upload_list upload_view icon_view status_view
list_dismisses id [] = refl
list_dismisses id (u ∷ us) = ground (arith, list_dismisses id us)

offered :
    (shown : Bool) (id : ℕ) (s : State)
    → can (dismisses id) (view shown s) ≡ (shown && has id s.hook.uploads)
unfolding view
offered shown id s = ground (arith, list_dismisses id s.hook.uploads)

has-append : (id : ℕ) (us vs : List UploadItem) → has id (us ++ vs) ≡ (has id us || has id vs)
has-append id [] vs = refl
has-append id (u ∷ us) vs = ground (arith, has-append id us vs)

has-dismissed :
    (id j : ℕ) (us : List UploadItem)
    → has j (filter (λ u. not (u.id == id)) us) ≡ (has j us && not (id == j))
has-dismissed id j [] = refl
has-dismissed id j (u ∷ us) = ground (arith, has-dismissed id j us)

length-lifted : (es : List Effect) → length (lifted es) ≡ length es
unfolding lifted
length-lifted [] = refl
length-lifted (e ∷ es) = ap suc (length-lifted es)

handle_files_lem :
    (id : ℕ) (files : List File) (h : Hook)
    → (has id (handle_files files h).0.uploads ≡ (
        has id h.uploads || (ltb h.upload_counter id && leb id (h.upload_counter + length files))))
      × (length (handle_files files h).1 ≡ length files)
unfolding handle_files start_upload
handle_files_lem id [] h = (ground arith, refl)
handle_files_lem id (file ∷ files) h =
    let (ids, counts) = handle_files_lem id files (start_upload file h).0 in
    let item : UploadItem = record {
      id = suc h.upload_counter;
      file = file;
      progress = some 0;
      status = uploading;
      error_text = none;
    } in
    (ground (arith, ids, has-append id h.uploads (item ∷ [])), ap suc counts)

-- In the dialog while it is shown: each upload of the hook, and nothing else, has a button that
-- dismisses it; a click on it takes away the buttons with that id and no other; and dropped files
-- add buttons for exactly as many new ids as there are files, one upload started for each.
pub view_dismissals :
    (s : State) (id j : ℕ) (files : List File)
    → (can (dismisses j) (view true s) ≡ any (λ u. u.id == j) s.hook.uploads)
      × (can (dismisses j) (view true (perform (dismiss id) s).0)
          ≡ (can (dismisses j) (view true s) && not (id == j)))
      × (can (dismisses j) (view true (perform (drop (some files)) s).0) ≡ (
          can (dismisses j) (view true s)
          || (ltb s.hook.upload_counter j && leb j (s.hook.upload_counter + length files))))
      × (length (perform (drop (some files)) s).1 ≡ length files)
unfolding perform handle_given dismiss_upload
view_dismissals s id j files =
    let (ids, counts) = handle_files_lem j files s.hook in
    (
      offered true j s,
      offered true j (perform (dismiss id) s).0
          ∙ has-dismissed id j s.hook.uploads
          ∙ ap (λ b. b && not (id == j)) (sym (offered true j s)),
      offered true j (perform (drop (some files)) s).0
          ∙ ids
          ∙ ap
              (λ b.
                b || (ltb s.hook.upload_counter j && leb j (s.hook.upload_counter + length files)))
              (sym (offered true j s)),
      length-lifted (handle_files files s.hook).1 ∙ counts,
    )
