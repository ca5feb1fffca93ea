-- ===== src/Keys/Coverage.antt =====
-- Which queries each mutation marks as stale.
use optiflow.Prelude.{◌≡◌, true, Option, [], ◌∷◌, String, arith, or_else}
use optiflow.Keys.{
  QueryClient, files_key, file_stats_key, file_versions_key, folders_key, folder_key, shares_key,
  file_shares_key, after_file_change, after_restore, after_create_folder, after_update_folder,
  after_delete_folder, after_create_share, after_delete_share, invalidated,
}

module _ (client : QueryClient) where
  open client use {matches, matches_prefix}

  -- A change of a file or its removal, and the restoring of a version, reach every list of files,
  -- whichever folder it shows, and the statistics; the latter also the versions of its file.
  pub file_change-invalidated :
      (folder file_id : Option String)
      → (invalidated client after_file_change (files_key folder) ≡ true)
        × (invalidated client after_file_change file_stats_key ≡ true)
        × (invalidated client (after_restore file_id) (files_key folder) ≡ true)
        × (invalidated client (after_restore file_id) file_stats_key ≡ true)
        × (invalidated client (after_restore file_id) (file_versions_key file_id) ≡ true)
  unfolding after_file_change after_restore files_key file_stats_key file_versions_key
  file_change-invalidated folder file_id =
      let f = matches_prefix ("files" ∷ []) (or_else folder "root" ∷ []) in
      let s = matches_prefix ("files" ∷ []) ("stats" ∷ []) in
      let v = matches_prefix ("file-versions" ∷ or_else file_id "none" ∷ []) [] in
      (
        ground (arith, f),
        ground (arith, s),
        ground (arith, f),
        ground (arith, s),
        ground (arith, v),
      )

  -- A change of a folder reaches its own details and every list of folders, those of the old and of
  -- the new parent among them; its removal reaches every list of folders and of files.
  pub folder_change-invalidated :
      (id : String) (parent shown : Option String)
      → (invalidated client (after_update_folder id parent) (folder_key id) ≡ true)
        × (invalidated client (after_update_folder id parent) (folders_key shown) ≡ true)
        × (invalidated client after_delete_folder (folders_key shown) ≡ true)
        × (invalidated client after_delete_folder (files_key shown) ≡ true)
        × (invalidated client after_delete_folder file_stats_key ≡ true)
        × (invalidated client (after_create_folder parent) (folders_key parent) ≡ true)
  unfolding after_update_folder after_delete_folder after_create_folder files_key file_stats_key
      folders_key folder_key
  folder_change-invalidated id parent shown =
      let d = matches_prefix ("folder" ∷ id ∷ []) [] in
      let l = matches_prefix ("folders" ∷ []) (or_else shown "root" ∷ []) in
      let f = matches_prefix ("files" ∷ []) (or_else shown "root" ∷ []) in
      let s = matches_prefix ("files" ∷ []) ("stats" ∷ []) in
      let p = matches_prefix ("folders" ∷ or_else parent "root" ∷ []) [] in
      (
        ground (arith, d),
        ground (arith, l),
        ground (arith, l),
        ground (arith, f),
        ground (arith, s),
        ground (arith, p),
      )

  -- A new share link and the removal of one reach the list of all links and the list of every file,
  -- so the second key that useCreateShare invalidates adds nothing.
  pub share_change-invalidated :
      (file_id : String) (shown : Option String)
      → (invalidated client (after_create_share file_id) shares_key ≡ true)
        × (invalidated client (after_create_share file_id) (file_shares_key shown) ≡ true)
        × (invalidated client after_delete_share shares_key ≡ true)
        × (invalidated client after_delete_share (file_shares_key shown) ≡ true)
  unfolding after_create_share after_delete_share shares_key file_shares_key
  share_change-invalidated file_id shown =
      let a = matches_prefix ("shares" ∷ []) [] in
      let f = matches_prefix ("shares" ∷ []) ("file" ∷ or_else shown "none" ∷ []) in
      (ground (arith, a), ground (arith, f), ground (arith, a), ground (arith, f))
