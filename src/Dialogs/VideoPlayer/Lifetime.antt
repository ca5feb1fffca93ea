-- ===== src/Dialogs/VideoPlayer/Lifetime.antt =====
-- components/files/video-player-dialog.tsx: which video is loaded, and that there is only one.
use optiflow.Prelude.{
  ℕ, ◌≡◌, refl, sym, subst, ap, ◌∙◌, Bool, true, false, not, ◌&&◌, Option, none, some, List, [],
  ◌∷◌, String, truthy, arith, if_lem,
}
use optiflow.Dialogs.VideoPlayer.{
  Browser, Dependency, unmounted, mounted, State, initial, source_of, start, load, begin, clean_up,
  render_with, render, unmount, manifest_parsed, hls_error, Happening, rendering, unmounting,
  parsing, failing, happen, course,
}

module _ (upload_url : String) where
  -- The dialog is open on the file of a source.
  abbrev pub IsShowing : Dependency → String → Type 0
  IsShowing (mounted true (some f)) source = (truthy f ≡ true) × (source ≡ source_of upload_url f)
  IsShowing _ source = ⊥

  record Inv (s : State) : Type 0 where
    only : (i : ℕ) → s.playing i ≡ true → s.hls ≡ some i
    showing : (i : ℕ) → s.hls ≡ some i → IsShowing s.dependency (s.source i)

  record Stopped (s : State) : Type 0 where
    none_left : s.hls ≡ none
    silent : (i : ℕ) → s.playing i ≡ false

  -- without an effect there is no object
  no_object :
      (s : State) (c : Option ℕ) → s.hls ≡ c → s.dependency ≡ unmounted → Inv s → s.hls ≡ none
  no_object s none r q h = r
  no_object s (some k) r q h = absurd (subst (λ d. IsShowing d (s.source k)) q (h.showing k r))

  idle : (s : State) → s.dependency ≡ unmounted → Inv s → Stopped s
  idle s q h =
      let gone = no_object s s.hls refl q h in
      record { none_left = gone; silent = λ i. ground (arith, gone, h.only i) }

  Stopped-Inv : (s : State) → Stopped s → Inv s
  Stopped-Inv s h = record {
    only = λ i p. ground (arith, p, h.silent i);
    showing = λ i p. absurd (ground (arith, p, h.none_left));
  }

  clean_up-Stopped :
      (c : Option ℕ) (s : State) → s.hls ≡ c → Inv s → Stopped (clean_up upload_url c s)
  unfolding clean_up
  clean_up-Stopped none s q h = record { none_left = q; silent = λ i. ground (arith, q, h.only i) }
  clean_up-Stopped (some k) s q h = record {
    none_left = refl;
    silent = λ i. ground (arith, q, h.only i);
  }

  start-Inv :
      (f : String) (s : State)
      → truthy f ≡ true
      → s.dependency ≡ mounted true (some f)
      → Stopped s
      → Inv (start upload_url f s)
  unfolding start
  start-Inv f s t d h = record {
    only = λ i p. ground (arith, p, h.silent i);
    showing = λ i p.
        subst (λ d'. IsShowing d' ((start upload_url f s).source i)) (sym d) (t, ground (arith, p));
  }

  stopped_with : (s s' : State) → s'.hls ≡ s.hls → s'.playing ≡ s.playing → Stopped s → Inv s'
  stopped_with s s' q r h =
      Stopped-Inv s'
        (record { none_left = q ∙ h.none_left; silent = λ i. ap (λ f. f i) r ∙ h.silent i })

  load-Inv :
      (b : Browser) (f : String) (s : State)
      → truthy f ≡ true
      → s.dependency ≡ mounted true (some f)
      → Stopped s
      → Inv (load upload_url b f s)
  unfolding load
  load-Inv b f s t d h =
      if_lem Inv (not b.has_video) s _ (λ q. Stopped-Inv s h)
        (λ q.
          if_lem Inv b.hls_supported (start upload_url f s) _ (λ r. start-Inv f s t d h)
            (λ r.
              if_lem Inv b.plays_natively _ _ (λ u. stopped_with s _ refl refl h)
                (λ u. stopped_with s _ refl refl h)))

  begin-Inv :
      (b : Browser) (shown : Bool) (f : Option String) (s : State)
      → Stopped s
      → Inv (begin upload_url b shown f s)
  unfolding begin
  begin-Inv b shown none s h = stopped_with s _ refl refl h
  begin-Inv b false (some f) s h = stopped_with s _ refl refl h
  begin-Inv b true (some f) s h =
      if_lem Inv (truthy f) _ _
        (λ t. load-Inv b f _ t refl (record { none_left = h.none_left; silent = h.silent }))
        (λ t. stopped_with s _ refl refl h)

  render-Inv :
      (d : Dependency) (b : Browser) (shown : Bool) (f : Option String) (s : State)
      → s.dependency ≡ d
      → Inv s
      → Inv (render_with upload_url d b shown f s)
  unfolding render_with
  render-Inv unmounted b shown f s q h = begin-Inv b shown f s (idle s q h)
  render-Inv (mounted was old) b shown f s q h =
      if_lem Inv _ s _ (λ r. h) (λ r. begin-Inv b shown f _ (clean_up-Stopped s.hls s refl h))

  happen-Inv : (s : State) (h : Happening) → Inv s → Inv (happen upload_url s h)
  unfolding happen render unmount manifest_parsed hls_error
  happen-Inv s (rendering b shown f) inv = render-Inv s.dependency b shown f s refl inv
  happen-Inv s unmounting inv =
      stopped_with (clean_up upload_url s.hls s) _ refl refl (clean_up-Stopped s.hls s refl inv)
  happen-Inv s (parsing i) inv =
      if_lem Inv (s.playing i) _ s (λ q. record { only = inv.only; showing = inv.showing })
        (λ q. inv)
  happen-Inv s (failing i fatal) inv =
      if_lem Inv (s.playing i && fatal) _ s (λ q. record { only = inv.only; showing = inv.showing })
        (λ q. inv)

  course-Inv : (s : State) (hs : List Happening) → Inv s → Inv (course upload_url s hs)
  unfolding course
  course-Inv s [] inv = inv
  course-Inv s (h ∷ hs) inv = course-Inv (happen upload_url s h) hs (happen-Inv s h inv)

  -- However renders with other props, unmounts and callbacks of hls.js interleave after the first
  -- render: an object of hls.js that has not been destroyed is the one that the next clean-up
  -- destroys, so that there is at most one; and the dialog is open on the file whose playlist that
  -- object loads.
  pub course-plays_shown :
      (hs : List Happening) (i : ℕ)
      → (course upload_url initial hs).playing i ≡ true
      → ((course upload_url initial hs).hls ≡ some i)
        × IsShowing
            (course upload_url initial hs).dependency
            ((course upload_url initial hs).source i)
  course-plays_shown hs i p =
      let inv =
        course-Inv initial hs
          (Stopped-Inv initial (record { none_left = refl; silent = λ j. refl })) in
      (inv.only i p, inv.showing i (inv.only i p))
