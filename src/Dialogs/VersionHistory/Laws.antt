-- ===== src/Dialogs/VersionHistory/Laws.antt =====
-- components/files/version-history-dialog.tsx: what can be clicked.
use optiflow.Prelude.{
  ◌≡◌, refl, Bool, true, false, not, ◌&&◌, List, [], ◌∷◌, String, any, arith, or_else, str_eq,
}
use optiflow.Requests.Files.{FileRecord}
use optiflow.View.{can}
use optiflow.Dialogs.VersionHistory.{
  Queries, Action, click_upload, select_restore, is_uploading, version_view, version_list, view,
}

abbrev pub restores : String → Action → Bool
restores id (select_restore i) = str_eq i id
restores id _ = false

abbrev pub is_click_upload : Action → Bool
is_click_upload click_upload = true
is_click_upload _ = false

module _ (distance : String → String) where
  list_restores :
      (id : String) (b : Bool) (vs : List FileRecord)
      → can (restores id) (version_list distance b vs)
        ≡ (not b && any (λ v. not v.is_current && str_eq v.id id) vs)
  unfolding version_list version_view
  list_restores id true [] = refl
  list_restores id false [] = refl
  list_restores id b (v ∷ vs) = ground (arith, list_restores id b vs)

  list_uploads :
      (b : Bool) (vs : List FileRecord) → can is_click_upload (version_list distance b vs) ≡ false
  unfolding version_list version_view
  list_uploads b [] = refl
  list_uploads b (v ∷ vs) = ground (arith, list_uploads b vs)

  -- A new version can be uploaded exactly when the dialog is shown and no upload is under way, and
  -- a version can be restored exactly when the dialog is shown, the list has come with a version of
  -- that id that is not the current one, and no restoring is under way.
  pub view_offers :
      (q : Queries) (id : String)
      → (can is_click_upload (view distance q) ≡ (q.shown && not (is_uploading q.upload_state)))
        × (can (restores id) (view distance q) ≡ (
            q.shown
            && (not q.is_loading
                && (not q.restore_pending
                    && any (λ v. not v.is_current && str_eq v.id id) (or_else q.versions [])))))
  unfolding view
  view_offers q id = ground (
    arith,
    list_uploads q.restore_pending (or_else q.versions []),
    list_restores id q.restore_pending (or_else q.versions []),
  )
