-- ===== src/Notifications/Live/Objects.antt =====
-- useNotificationSocket of lib/hooks/use-notifications.ts (frontend): the object of the running
-- effect and those of effects that were cleaned up, event by event.
use optiflow.Prelude.{ℕ, ◌≡◌, ◌∙◌, Bool, true, false, Option, none, some, arith, String, truthy}
use optiflow.Socket.{
  Phase, connecting, opened, Socket, new_socket, Event, connecting_with, reconnecting_with,
  closing_down, opening, erring, timing, receiving, connect, close, step,
}
use optiflow.Socket.Invariant.{Inv, IsInSession, about, connect-Inv, step-Inv}
use optiflow.Socket.Session.{close-Inv}
use optiflow.Notifications.{Notification, Cache}
use optiflow.Notifications.Live.{deliver, is_of_browser}

-- A WebSocket that can still bring a message.
abbrev pub is_awake : Phase → Bool
is_awake connecting = true
is_awake opened = true
is_awake _ = false

pub record Running (s : Socket) : Type 0 where
  pub inv : Inv s
  pub kept : s.closed_by_caller ≡ false

pub record Retired (s : Socket) : Type 0 where
  pub inv : Inv s
  pub left : s.closed_by_caller ≡ true
  pub asleep : (i : ℕ) → is_awake (s.phase i) ≡ false

pub retire : (s : Socket) → Running s → Retired (close s)
unfolding close
retire s r = record {
  inv = close-Inv s r.inv;
  left = ground arith;
  asleep = λ i. ground (arith, r.kept, r.inv.current i);
}

in_session : (e : Event Notification) → is_of_browser e ≡ true → IsInSession e
in_session (connecting_with t h) b = ground arith
in_session (reconnecting_with t) b = ground arith
in_session closing_down b = ground arith
in_session (opening i) b = tt
in_session (Event.closing i) b = tt
in_session (erring i) b = tt
in_session (timing t) b = tt
in_session (receiving i n) b = tt

module _ (s : Socket) (e : Event Notification) (b : is_of_browser e ≡ true) where
  step-closed_by_caller : (step s e).0.closed_by_caller ≡ s.closed_by_caller
  unfolding step
  step-closed_by_caller = ground (arith, b)

  step-asleep : Retired s → (i : ℕ) → is_awake ((step s e).0.phase i) ≡ false
  unfolding step
  step-asleep r i = ground (arith, b, r.left, r.asleep i, r.inv.quiet (about e) r.left)

  pub late-deliver : (cache : Cache) → Retired s → deliver (step s e).1 cache ≡ cache
  unfolding step deliver
  late-deliver cache r = ground (arith, b, r.left, r.asleep (about e), r.inv.quiet (about e) r.left)

  pub step-Running : Running s → Running (step s e).0
  step-Running r = record {
    inv = step-Inv s e r.inv (in_session e b);
    kept = step-closed_by_caller ∙ r.kept;
  }

  pub step-Retired : Retired s → Retired (step s e).0
  step-Retired r = record {
    inv = step-Inv s e r.inv (in_session e b);
    left = step-closed_by_caller ∙ r.left;
    asleep = step-asleep r;
  }

abbrev pub IsRunning : Option Socket → Type 0
IsRunning none = Unit
IsRunning (some s) = Running s

abbrev pub connected : String → Socket
unfolding connect
connected t = (connect {N = Notification} t (record { on_status_change = false }) new_socket).0

pub connected-Running : (t : String) → truthy t ≡ true → Running (connected t)
unfolding connect
connected-Running t q = record {
  inv = connect-Inv _ t (record { on_status_change = false }) q;
  kept = ground arith;
}
