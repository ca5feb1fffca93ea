-- ===== src/Tests/SocketTests.antt =====
-- lib/api/ws.ts at concrete inputs.
use optiflow.Prelude.{ℕ, ◌-◌, ◌≡◌, refl, ◌⊎◌, true, false, not, ◌&&◌, ◌==◌, some, List, [], ◌∷◌}
use optiflow.Socket.{
  Handlers, is_live, Event, opening, receiving, timing, backoff, close, connect, step, run,
}
use optiflow.Socket.Invariant.{Inv, started, started-Inv}
use optiflow.Socket.Session.{session-one_connection, session-alive, run_after_close}

socket : Unit {0}
unfolding run step connect
socket = tt

abbrev silent : Handlers
silent = record { on_status_change = false }

abbrev Ev : Type 0
Ev = Event (Unit {0})

-- opened, a message, lost, and connected again
abbrev lost : List Ev
lost = opening 0 ∷ receiving 0 (some tt) ∷ Event.closing 0 ∷ timing 0 ∷ []

session-one_connection_example :
    ((is_live ((run (started "t" silent) lost).phase 1) && not (1 == 1)) ≡ false)
    × ((run (started "t" silent) lost).pending 0 ≡ false)
unfolding socket
session-one_connection_example =
    session-one_connection "t" silent lost refl (tt, (tt, (tt, (tt, tt)))) 1 1 0 refl

session-alive_example :
    (is_live
        ((run (started "t" silent) lost).phase ((run (started "t" silent) lost).next_socket - 1))
      ≡ true)
    ⊎ ((t : ℕ) × ((run (started "t" silent) lost).pending t ≡ true)
        × ((run (started "t" silent) lost).reconnect_timer ≡ some t))
unfolding socket
session-alive_example = session-alive "t" silent lost refl (tt, (tt, (tt, (tt, tt)))) refl

begun : Inv (started "t" silent)
begun = started-Inv "t" silent refl

run_after_close_example :
    ((run (close (started "t" silent)) lost).next_socket ≡ (started "t" silent).next_socket)
    × ((run (close (started "t" silent)) lost).next_timer ≡ (started "t" silent).next_timer)
    × ((run (close (started "t" silent)) lost).pending 0 ≡ false)
run_after_close_example =
    run_after_close (started "t" silent) lost begun (tt, (tt, (tt, (tt, tt)))) 0

-- 1, 2, 4, 8, 16 and then 30 seconds
delays : (backoff 0 ≡ 1000) × (backoff 1 ≡ 2000) × (backoff 4 ≡ 16000) × (backoff 5 ≡ 30000)
unfolding backoff
delays = (refl, refl, refl, refl)
