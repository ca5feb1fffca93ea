-- ===== src/Notifications/Live/Lifetime.antt =====
-- useNotificationSocket of lib/hooks/use-notifications.ts (frontend): one connection over all
-- effects of the hook, and what is left of an effect after its clean-up.
use optiflow.Prelude.{
  ℕ, ◌≡◌, refl, ap, ◌∙◌, Bool, true, false, not, ◌&&◌, ◌==◌, Option, none, some, List, [], ◌∷◌,
  arith, String, if_lem, All,
}
use optiflow.Socket.{Socket, is_live, Event}
use optiflow.Notifications.{Notification, Cache}
use optiflow.Notifications.Live.{
  Live, initial, clean_up, clean_up_with, unmount, listen, is_of_browser, at_current, at_past,
  Happening, rendering, token_changing, unmounting, now, late, happen, course,
}
use optiflow.Notifications.Live.Objects.{is_awake, Retired, IsRunning}
use optiflow.Notifications.Live.Soundness.{
  Sound, clean_up-Sound, at_past-Retired, happen-Sound, course-Sound, initial-Sound,
}

-- Whether WebSockets i and j of the running effect's object are two that are not closed.
abbrev pub has_two : Option Socket → ℕ → ℕ → Bool
has_two none i j = false
has_two (some s) i j = is_live (s.phase i) && is_live (s.phase j) && not (i == j)

Running-has_two : (c : Option Socket) (i j : ℕ) → IsRunning c → has_two c i j ≡ false
Running-has_two none i j h = refl
Running-has_two (some s) i j h = ground (arith, h.inv.latest i, h.inv.latest j)

Retired-is_quiet :
    (ss : List Socket) (i t : ℕ)
    → All Retired ss
    → All (λ s. (is_awake (s.phase i) ≡ false) × (s.pending t ≡ false)) ss
Retired-is_quiet [] i t r = tt
Retired-is_quiet (s ∷ ss) i t (r, rs) =
    ((r.asleep i, r.inv.quiet t r.left), Retired-is_quiet ss i t rs)

late-cache :
    (l : Live) (k : ℕ) (e : Event Notification) → Sound l → (happen l (late k e)).cache ≡ l.cache
unfolding happen
late-cache l k e r =
    if_lem (λ l'. l'.cache ≡ l.cache) (is_of_browser e)
      (let (past, cache) = at_past e k l.past l.cache in record l { past = past; cache = cache }) l
      (λ b. (at_past-Retired e k l.past l.cache b r.retired).1) (λ b. refl)

-- However renders with other tokens, refreshes, unmounts and the events of all the WebSockets and
-- timers interleave after the first render: the running effect has at most one WebSocket that is
-- not closed, those of effects that were cleaned up are neither connecting nor open and have no
-- timer pending, and a late event of one of them leaves the cache as it is.
pub course-one_connection :
    (cache : Cache) (hs : List Happening) (e : Event Notification)
    → (i j k t : ℕ)
    → let l = course (initial cache) hs in
      (has_two l.current i j ≡ false)
      × All (λ s. (is_awake (s.phase i) ≡ false) × (s.pending t ≡ false)) l.past
      × ((happen l (late k e)).cache ≡ l.cache)
course-one_connection cache hs e i j k t =
    let r = course-Sound (initial cache) hs (initial-Sound cache) in
    let l = course (initial cache) hs in
    (
      Running-has_two l.current i j r.running,
      Retired-is_quiet l.past i t r.retired,
      late-cache l k e r,
    )

-- What can come to a component that React has removed.
abbrev pub is_rendering : Happening → Bool
is_rendering (rendering token) = true
is_rendering _ = false

-- without an object, nothing but a render changes the hook
module _ (l : Live) where
  listen-none : (token : Option String) (c : Option Socket) → c ≡ none → listen token c ≡ none
  unfolding listen
  listen-none token none q = refl
  listen-none token (some s) q = ground (arith, q)

  clean_up_none : (c : Option Socket) → c ≡ none → clean_up_with c l ≡ l
  unfolding clean_up_with
  clean_up_none none q = refl
  clean_up_none (some s) q = ground (arith, q)

  at_current-none : (e : Event Notification) (c : Option Socket) → c ≡ none → at_current e c l ≡ l
  unfolding at_current
  at_current-none e none q = refl
  at_current-none e (some s) q = ground (arith, q)

  late-current : (k : ℕ) (e : Event Notification) → (happen l (late k e)).current ≡ l.current
  unfolding happen
  late-current k e = ground arith

  happen-gone :
      (h : Happening)
      → is_rendering h ≡ false
      → Sound l
      → l.current ≡ none
      → ((happen l h).current ≡ none) × ((happen l h).cache ≡ l.cache)
  unfolding happen unmount clean_up
  happen-gone (rendering token) q r g = ground arith
  happen-gone (token_changing token) q r g = (listen-none token l.current g, refl)
  happen-gone unmounting q r g =
      let same = clean_up_none l.current g in
      (ap (λ l'. l'.current) same ∙ g, ap (λ l'. l'.cache) same)
  happen-gone (now e) q r g =
      if_lem (λ l'. (l'.current ≡ none) × (l'.cache ≡ l.cache)) (is_of_browser e)
        (at_current e l.current l) l
        (λ b. (
          ap (λ l'. l'.current) (at_current-none e l.current g) ∙ g,
          ap (λ l'. l'.cache) (at_current-none e l.current g),
        ))
        (λ b. (g, refl))
  happen-gone (late k e) q r g = (late-current k e ∙ g, late-cache l k e r)

course-gone :
    (l : Live) (hs : List Happening)
    → Sound l
    → l.current ≡ none
    → All (λ h. is_rendering h ≡ false) hs
    → (course l hs).cache ≡ l.cache
unfolding course
course-gone l [] r g qs = refl
course-gone l (h ∷ hs) r g (q, qs) =
    let (g', same) = happen-gone l h q r g in
    course-gone (happen l h) hs (happen-Sound l h r) g' qs ∙ same

clean_up-cache : (l : Live) (c : Option Socket) → (clean_up_with c l).cache ≡ l.cache
unfolding clean_up_with
clean_up-cache l none = refl
clean_up-cache l (some s) = refl

unmount-gone :
    (l : Live)
    → Sound l
    → ((happen l unmounting).current ≡ none) × ((happen l unmounting).cache ≡ l.cache)
unfolding happen unmount clean_up
unmount-gone l r = ((clean_up-Sound l r).1, clean_up-cache l l.current)

-- Once the component is unmounted and until it renders again, whatever the WebSockets, the timers
-- and the refreshes of the access token still do, the notifications' cache stays as it was.
pub unmount-cache :
    (cache : Cache) (hs later : List Happening)
    → All (λ h. is_rendering h ≡ false) later
    → (course (happen (course (initial cache) hs) unmounting) later).cache
      ≡ (course (initial cache) hs).cache
unmount-cache cache hs later q =
    let l = course (initial cache) hs in
    let r = course-Sound (initial cache) hs (initial-Sound cache) in
    let (g, same) = unmount-gone l r in
    course-gone (happen l unmounting) later (happen-Sound l unmounting r) g q ∙ same
