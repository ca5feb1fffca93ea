-- ===== src/Keys/Staleness.antt =====
-- What an upload leaves stale, and when the list of files is polled.
use optiflow.Prelude.{
  ◌≡◌, refl, ◌≢◌, ◌↔◌, ◌⊎◌, inl, inr, true, false, Option, none, some, List, [], ◌∷◌, String, arith,
  or_else, any, Bool-cases, All,
}
use optiflow.Keys.{
  QueryClient, QueryKey, files_key, after_upload, invalidated, refetch_interval, is_in_flight,
}
use optiflow.Requests.Files.{FileRecord, ready, failed}

-- A finished upload reaches the list of files of its own folder, and no other query under "files":
-- not the list of another folder, and not the statistics that the dashboard shows (unless the
-- folder is called "stats"), though the upload has changed them.
pub upload-invalidated :
    (client : QueryClient) (folder : Option String) (name : String)
    → or_else folder "root" ≢ name
    → (invalidated client (after_upload folder) (files_key folder) ≡ true)
      × (invalidated client (after_upload folder) ("files" ∷ name ∷ []) ≡ false)
unfolding after_upload files_key
upload-invalidated client folder name d =
    let key : QueryKey = "files" ∷ or_else folder "root" ∷ [] in
    let own : client.matches key key ≡ true = client.matches_prefix key [] in
    (
      ground (arith, own),
      elim (Bool-cases (client.matches key ("files" ∷ name ∷ []))) [
        | inl y ↦ absurd (ground (arith, client.prefix_of_matches key ("files" ∷ name ∷ []) y))
        | inr n ↦ ground (arith, n)
      ],
    )

-- The worker of the backend has finished with the file.
abbrev pub IsSettled : FileRecord → Type 0
IsSettled f = (f.status ≡ ready) ⊎ (f.status ≡ failed)

any_in_flight :
    (files : List FileRecord)
    → (any (λ f. is_in_flight f.status) files ≡ false) ↔ All IsSettled files
any_in_flight [] = (λ _. tt, λ _. refl)
any_in_flight (f ∷ fs) = (
  λ h. (ground arith, (any_in_flight fs).0 (ground arith)),
  λ h. ground (arith, (any_in_flight fs).1 h.1),
)

-- The list of files is polled every three seconds until each file in it is ready or has failed,
-- and then no more.
pub refetch_interval_iff :
    (files : List FileRecord)
    → ((refetch_interval (some files) ≡ none) ↔ All IsSettled files)
      × ((refetch_interval (some files) ≡ none) ⊎ (refetch_interval (some files) ≡ some 3000))
unfolding refetch_interval
refetch_interval_iff files = (
  (λ h. (any_in_flight files).0 (ground arith), λ h. ground (arith, (any_in_flight files).1 h)),
  ground arith,
)
