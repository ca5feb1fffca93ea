-- ===== src/Upload/Identity.antt =====
-- lib/hooks/use-upload.ts: each item of the list has an id of its own.
use optiflow.Prelude.{
  ℕ, suc, ◌≤◌, ◌<◌, ◌≡◌, refl, subst, sym, Bool, Option, List, [], ◌∷◌, ◌++◌, String, filter, arith,
  All, All-concat, Bool-cases, inl, inr,
}
use optiflow.Upload.{
  File, UploadItem, Patch, Hook, progress_patch, success_patch, error_patch, patch_upload,
  start_upload, Event, starting, dismissing, progressing, succeeding, failing, elsewhere, step, run,
}

abbrev pub ids : List UploadItem → List ℕ
ids [] = []
ids (u ∷ us) = u.id ∷ ids us

abbrev pub IsAscending : List ℕ → Type 0
IsAscending [] = Unit
IsAscending (n ∷ ns) = All (λ m. n < m) ns × IsAscending ns

-- No id is above the shared counter, and the ids rise in the order of the list.
pub record Inv (h : Hook) : Type 0 where
  pub issued : All (λ n. n ≤ h.upload_counter) (ids h.uploads)
  pub ascending : IsAscending (ids h.uploads)

ids-patch_upload : (id : ℕ) (p : Patch) (us : List UploadItem) → ids (patch_upload id p us) ≡ ids us
unfolding patch_upload
ids-patch_upload id p [] = refl
ids-patch_upload id p (u ∷ us) = ground (arith, ids-patch_upload id p us)

All-filter :
    (P : ℕ → Type 0) (q : UploadItem → Bool) (us : List UploadItem)
    → All P (ids us)
    → All P (ids (filter q us))
All-filter P q [] h = tt
All-filter P q (u ∷ us) (h, hs) = elim (Bool-cases (q u)) [
  | inl y ↦ rw y (h, All-filter P q us hs)
  | inr n ↦ rw n (All-filter P q us hs)
]

filter-IsAscending :
    (q : UploadItem → Bool) (us : List UploadItem)
    → IsAscending (ids us)
    → IsAscending (ids (filter q us))
filter-IsAscending q [] h = tt
filter-IsAscending q (u ∷ us) (h, hs) = elim (Bool-cases (q u)) [
  | inl y ↦ rw y (All-filter (λ m. u.id < m) q us h, filter-IsAscending q us hs)
  | inr n ↦ rw n (filter-IsAscending q us hs)
]

All-weaken : (k : ℕ) (ns : List ℕ) → All (λ n. n ≤ k) ns → All (λ n. n ≤ suc k) ns
All-weaken k [] h = tt
All-weaken k (n ∷ ns) (h, hs) = (omega arith, All-weaken k ns hs)

ids-append : (us vs : List UploadItem) → ids (us ++ vs) ≡ ids us ++ ids vs
ids-append [] vs = refl
ids-append (u ∷ us) vs = rw (ids-append us vs)

append-IsAscending :
    (k : ℕ) (ns : List ℕ) → All (λ n. n ≤ k) ns → IsAscending ns → IsAscending (ns ++ suc k ∷ [])
append-IsAscending k [] b h = (tt, tt)
append-IsAscending k (n ∷ ns) (b, bs) (h, hs) =
    (All-concat (λ m. n < m) ns (suc k ∷ []) h (omega arith, tt), append-IsAscending k ns bs hs)

patch-Inv :
    (id : ℕ) (p : Patch) (h : Hook)
    → Inv h
    → Inv (record h { uploads = patch_upload id p h.uploads })
patch-Inv id p h inv = record {
  issued =
      subst (All (λ n. n ≤ h.upload_counter)) (sym (ids-patch_upload id p h.uploads)) inv.issued;
  ascending = subst IsAscending (sym (ids-patch_upload id p h.uploads)) inv.ascending;
}

start_upload-Inv : (file : File) (h : Hook) → Inv h → Inv (start_upload file h).0
unfolding start_upload
start_upload-Inv file h inv = record {
  issued = rw (ids-append h.uploads _) (
      All-concat (λ n. n ≤ suc h.upload_counter) (ids h.uploads) (suc h.upload_counter ∷ [])
        (All-weaken h.upload_counter (ids h.uploads) inv.issued) (omega arith, tt));
  ascending =
      rw (ids-append h.uploads _)
        (append-IsAscending h.upload_counter (ids h.uploads) inv.issued inv.ascending);
}

-- Every event keeps it: a start, a dismissal, the callbacks of tus for any upload, dismissed ones
-- too, and a start in another hook.
pub step-Inv : (h : Hook) (e : Event) → Inv h → Inv (step h e)
unfolding step
step-Inv h (starting file) inv = start_upload-Inv file h inv
step-Inv h (dismissing id) inv = record {
  issued = All-filter (λ n. n ≤ h.upload_counter) _ h.uploads inv.issued;
  ascending = filter-IsAscending _ h.uploads inv.ascending;
}
step-Inv h (progressing id sent total) inv = patch-Inv id (progress_patch sent total) h inv
step-Inv h (succeeding id) inv = patch-Inv id success_patch h inv
step-Inv h (failing id message) inv = patch-Inv id (error_patch message) h inv
step-Inv h elsewhere inv = record {
  issued = All-weaken h.upload_counter (ids h.uploads) inv.issued;
  ascending = inv.ascending;
}

-- Whatever happens to a hook that starts with an empty list, the ids in its list are all
-- different: they rise in the order in which the uploads were started.
pub run-IsAscending :
    (folder : Option String) (counter : ℕ) (es : List Event)
    → IsAscending (
        ids
          (run (record { folder_id = folder; upload_counter = counter; uploads = [] }) es).uploads)
unfolding run
run-IsAscending folder counter es = (go _ es (record { issued = tt; ascending = tt })).ascending
  where
    go : (h : Hook) (es : List Event) → Inv h → Inv (run h es)
    go h [] inv = inv
    go h (e ∷ es) inv = go (step h e) es (step-Inv h e inv)
