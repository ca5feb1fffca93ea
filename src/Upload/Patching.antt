-- ===== src/Upload/Patching.antt =====
-- lib/hooks/use-upload.ts: what the callbacks do to the upload that they are for, and to others.
use optiflow.Prelude.{
  ℕ, ◌+◌, ◌*◌, ◌/◌, ◌≤◌, ◌<◌, ◌≡◌, refl, ◌≢◌, true, not, Option, none, some, List, [], ◌∷◌, String,
  truthy, if◌then◌else◌, ◌==◌, filter, arith, Bool-cases, inl, inr,
}
use native.Mathlib.Nat.{div-lt_iff_lt-mul, mul-div-le, lt-div-mul-add, div-eq_of_lt-le}
use optiflow.Upload.{
  UploadItem, done, error, Patch, Hook, progress_patch, success_patch, error_patch, apply,
  patch_upload, round_percent, dismiss_upload, Event, progressing, succeeding, failing, step,
}

-- The item with an id, if it is in the list.
unfoldable pub find : ℕ → List UploadItem → Option UploadItem
find id [] = none
find id (u ∷ us) = if u.id == id then some u else find id us

find-patch_upload :
    (id j : ℕ) (p : Patch) (us : List UploadItem)
    → find j (patch_upload id p us)
      ≡ elim (find j us) [ none ↦ none | some u ↦ some (if u.id == id then apply p u else u) ]
unfolding find patch_upload
find-patch_upload id j p [] = refl
find-patch_upload id j p (u ∷ us) = ground (arith, find-patch_upload id j p us)

find-id : (id : ℕ) (us : List UploadItem) (u : UploadItem) → find id us ≡ some u → u.id ≡ id
unfolding find
find-id id [] u f = cc
find-id id (v ∷ us) u f = ground (arith, find-id id us u)

find-patch_upload_self :
    (id : ℕ) (p : Patch) (us : List UploadItem) (u : UploadItem)
    → find id us ≡ some u
    → find id (patch_upload id p us) ≡ some (apply p u)
find-patch_upload_self id p us u f = ground (arith, find-patch_upload id id p us, find-id id us u f)

find-patch_upload_ne :
    (id j : ℕ) (p : Patch) (us : List UploadItem)
    → id ≢ j
    → find j (patch_upload id p us) ≡ find j us
unfolding find patch_upload
find-patch_upload_ne id j p [] d = refl
find-patch_upload_ne id j p (u ∷ us) d = ground (arith, find-patch_upload_ne id j p us d)

-- The upload that a callback of tus was given with.
abbrev pub callback_id : Event → Option ℕ
callback_id (progressing id sent total) = some id
callback_id (succeeding id) = some id
callback_id (failing id message) = some id
callback_id _ = none

-- A callback changes no item but that of its own upload.
pub callback_local :
    (h : Hook) (e : Event) (id j : ℕ)
    → callback_id e ≡ some id
    → id ≢ j
    → find j (step h e).uploads ≡ find j h.uploads
unfolding step
callback_local h (progressing k sent total) id j c d =
    find-patch_upload_ne k j (progress_patch sent total) h.uploads (ground arith)
callback_local h (succeeding k) id j c d =
    find-patch_upload_ne k j success_patch h.uploads (ground arith)
callback_local h (failing k message) id j c d =
    find-patch_upload_ne k j (error_patch message) h.uploads (ground arith)
callback_local h _ id j c d = cc

message_truthy : (m : String) → truthy (if truthy m then m else "Upload failed") ≡ true
message_truthy m = elim (Bool-cases (truthy m)) [ inl y ↦ rw y y | inr n ↦ rw n refl ]

-- After onSuccess the item of the upload, if it is still listed, is done and at 100 percent; after
-- onError it has failed, keeps its progress and has a text to show that is not empty. Neither
-- touches its file.
pub settled_item :
    (h : Hook) (id : ℕ) (message : String) (u : UploadItem)
    → find id h.uploads ≡ some u
    → ((v : UploadItem) × (find id (step h (succeeding id)).uploads ≡ some v)
        × (v.status ≡ done)
        × (v.progress ≡ some 100)
        × (v.file ≡ u.file))
      × ((v : UploadItem) × (w : String) × (find id (step h (failing id message)).uploads ≡ some v)
          × (v.status ≡ error)
          × (v.progress ≡ u.progress)
          × (v.file ≡ u.file)
          × (v.error_text ≡ some w)
          × (truthy w ≡ true))
unfolding step apply
settled_item h id message u f =
    let w = if truthy message then message else "Upload failed" in
    (
      (
        apply success_patch u,
        find-patch_upload_self id success_patch h.uploads u f,
        refl,
        refl,
        refl,
      ),
      (
        apply (error_patch message) u,
        w,
        find-patch_upload_self id (error_patch message) h.uploads u f,
        refl,
        refl,
        refl,
        refl,
        message_truthy message,
      ),
    )

find-dismissed :
    (id : ℕ) (us : List UploadItem) → find id (filter (λ u. not (u.id == id)) us) ≡ none
unfolding find
find-dismissed id [] = refl
find-dismissed id (u ∷ us) = ground (arith, find-dismissed id us)

find-dismissed_ne :
    (id j : ℕ) (us : List UploadItem)
    → id ≢ j
    → find j (filter (λ u. not (u.id == id)) us) ≡ find j us
unfolding find
find-dismissed_ne id j [] d = refl
find-dismissed_ne id j (u ∷ us) d = ground (arith, find-dismissed_ne id j us d)

patch_upload_absent :
    (id : ℕ) (p : Patch) (us : List UploadItem) → find id us ≡ none → patch_upload id p us ≡ us
unfolding find patch_upload
patch_upload_absent id p [] f = refl
patch_upload_absent id p (u ∷ us) f = ground (arith, patch_upload_absent id p us)

callback_absent :
    (h : Hook) (id : ℕ) (e : Event)
    → callback_id e ≡ some id
    → find id h.uploads ≡ none
    → step h e ≡ h
unfolding step
callback_absent h id (progressing k sent total) c f =
    ground (arith, patch_upload_absent k (progress_patch sent total) h.uploads)
callback_absent h id (succeeding k) c f =
    ground (arith, patch_upload_absent k success_patch h.uploads)
callback_absent h id (failing k message) c f =
    ground (arith, patch_upload_absent k (error_patch message) h.uploads)
callback_absent h id _ c f = cc

-- A dismissal takes the item out and leaves the others alone, and a callback that comes later for
-- the dismissed upload changes nothing in the hook.
pub dismissed_stays :
    (h : Hook) (id j : ℕ) (e : Event)
    → callback_id e ≡ some id
    → id ≢ j
    → (find id (dismiss_upload id h).uploads ≡ none)
      × (find j (dismiss_upload id h).uploads ≡ find j h.uploads)
      × (step (dismiss_upload id h) e ≡ dismiss_upload id h)
unfolding dismiss_upload
dismissed_stays h id j e c d =
    let gone = find-dismissed id h.uploads in
    (gone, find-dismissed_ne id j h.uploads d, callback_absent (dismiss_upload id h) id e c gone)

-- The percentage is within half a point of the exact quotient, at most 100 while no more than the
-- total was sent, and 100 when all of it was.
pub round_percent_bounds :
    (sent total : ℕ)
    → sent ≤ total
    → 0 < total
    → (n : ℕ) × (round_percent sent total ≡ some n)
      × (n ≤ 100)
      × (2 * total * n ≤ 200 * sent + total)
      × (200 * sent < 2 * total * n + total)
      × (round_percent total total ≡ some 100)
unfolding round_percent
round_percent_bounds sent total le pos =
    let n = (200 * sent + total) / (2 * total) in
    (
      n,
      ground arith,
      omega (
        arith,
        (div-lt_iff_lt-mul {k = 2 * total} {x = 200 * sent + total} {y = 101} (omega arith)).1
            (omega arith),
      ),
      mul-div-le _ _,
      omega (arith, lt-div-mul-add {a = 200 * sent + total} {b = 2 * total} (omega arith)),
      ground (
        arith,
        div-eq_of_lt-le {k = 100} (2 * total) {m = 200 * total + total} (omega arith) (omega arith),
      ),
    )
