-- ===== src/Notifications/Live/Soundness.antt =====
-- useNotificationSocket of lib/hooks/use-notifications.ts (frontend): what holds of the hook after
-- every happening.
use optiflow.Prelude.{
  ℕ, zero, suc, ◌≡◌, refl, sym, subst, true, Option, none, some, List, [], ◌∷◌, arith, String,
  truthy, if_lem, option_eq, All,
}
use optiflow.Socket.{Socket, Event, reconnecting_with, reconnect_with_token, step}
use optiflow.Socket.Invariant.{step-Inv}
use optiflow.Notifications.{Notification, Cache}
use optiflow.Notifications.Live.{
  Live, Dependency, unmounted, mounted, initial, begin, clean_up, clean_up_with, render,
  render_with, unmount, listen, is_of_browser, at_current, at_past, Happening, rendering,
  token_changing, unmounting, now, late, happen, course,
}
use optiflow.Notifications.Live.Objects.{
  Running, Retired, retire, step-Running, step-Retired, late-deliver, IsRunning, connected,
  connected-Running,
}

pub record Sound (l : Live) : Type 0 where
  pub running : IsRunning l.current
  pub retired : All Retired l.past

begin-Sound : (token : Option String) (l : Live) → All Retired l.past → Sound (begin token l)
unfolding begin
begin-Sound none l r = record { running = tt; retired = r }
begin-Sound (some t) l r = record {
  running = if_lem IsRunning (truthy t) (some (connected t)) none (connected-Running t) (λ q. tt);
  retired = r;
}

retire_with :
    (c : Option Socket) (l : Live)
    → IsRunning c
    → All Retired l.past
    → l.current ≡ c
    → All Retired (clean_up_with c l).past × ((clean_up_with c l).current ≡ none)
unfolding clean_up_with
retire_with none l c r q = (r, q)
retire_with (some s) l c r q = ((retire s c, r), refl)

pub clean_up-Sound :
    (l : Live) → Sound l → All Retired (clean_up l).past × ((clean_up l).current ≡ none)
unfolding clean_up
clean_up-Sound l h = retire_with l.current l h.running h.retired refl

render_with-Sound :
    (d : Dependency) (token : Option String) (l : Live) → Sound l → Sound (render_with d token l)
unfolding render_with
render_with-Sound unmounted token l h = begin-Sound token l h.retired
render_with-Sound (mounted old) token l h =
    if_lem Sound (option_eq old token) l (begin token (clean_up l)) (λ q. h)
      (λ q. begin-Sound token (clean_up l) (clean_up-Sound l h).0)

change_token-Running :
    (t : String) (s : Socket) → truthy t ≡ true → Running s → Running (reconnect_with_token t s)
unfolding reconnect_with_token step
change_token-Running t s q h = record {
  inv = step-Inv {N = Unit {0}} s (reconnecting_with t) h.inv q;
  kept = ground (arith, h.kept);
}

listen-Running :
    (token : Option String) (c : Option Socket) → IsRunning c → IsRunning (listen token c)
unfolding listen
listen-Running token none h = tt
listen-Running none (some s) h = h
listen-Running (some t) (some s) h =
    if_lem IsRunning (truthy t) (some (reconnect_with_token t s)) (some s)
      (λ q. change_token-Running t s q h) (λ q. h)

at_current-Sound :
    (e : Event Notification) (c : Option Socket) (l : Live)
    → is_of_browser e ≡ true
    → IsRunning c
    → All Retired l.past
    → IsRunning l.current
    → Sound (at_current e c l)
unfolding at_current
at_current-Sound e none l b h r k = record { running = k; retired = r }
at_current-Sound e (some s) l b h r k = record { running = step-Running s e b h; retired = r }

pub at_past-Retired :
    (e : Event Notification) (k : ℕ) (ss : List Socket) (cache : Cache)
    → is_of_browser e ≡ true
    → All Retired ss
    → All Retired (at_past e k ss cache).0 × ((at_past e k ss cache).1 ≡ cache)
unfolding at_past
at_past-Retired e k [] cache b r = (r, refl)
at_past-Retired e zero (s ∷ ss) cache b (r, rs) =
    ((step-Retired s e b r, rs), late-deliver s e b cache r)
at_past-Retired e (suc k) (s ∷ ss) cache b (r, rs) =
    let (rs', q) = at_past-Retired e k ss cache b rs in ((r, rs'), q)

pub happen-Sound : (l : Live) (h : Happening) → Sound l → Sound (happen l h)
unfolding happen render unmount
happen-Sound l (rendering token) r = render_with-Sound l.dependency token l r
happen-Sound l (token_changing token) r = record {
  running = listen-Running token l.current r.running;
  retired = r.retired;
}
happen-Sound l unmounting r =
    let (rs, q) = clean_up-Sound l r in
    record { running = subst IsRunning (sym q) tt; retired = rs }
happen-Sound l (now e) r =
    if_lem Sound (is_of_browser e) (at_current e l.current l) l
      (λ b. at_current-Sound e l.current l b r.running r.retired r.running) (λ b. r)
happen-Sound l (late k e) r =
    if_lem Sound (is_of_browser e)
      (let (past, cache) = at_past e k l.past l.cache in record l { past = past; cache = cache }) l
      (λ b. record {
        running = r.running;
        retired = (at_past-Retired e k l.past l.cache b r.retired).0;
      })
      (λ b. r)

pub course-Sound : (l : Live) (hs : List Happening) → Sound l → Sound (course l hs)
unfolding course
course-Sound l [] r = r
course-Sound l (h ∷ hs) r = course-Sound (happen l h) hs (happen-Sound l h r)

pub initial-Sound : (cache : Cache) → Sound (initial cache)
initial-Sound cache = record { running = tt; retired = tt }
