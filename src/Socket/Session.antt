-- ===== src/Socket/Session.antt =====
-- lib/api/ws.ts: one connection at a time, until the caller closes it.
use optiflow.Prelude.{
  ℕ, ◌-◌, ◌≡◌, refl, ◌∙◌, ◌≢◌, subst, ◌⊎◌, inl, inr, true, false, not, ◌&&◌, ◌==◌, some, List, [],
  ◌∷◌, arith, String, truthy, All,
}
use optiflow.Socket.{
  connecting, closed, Handlers, Socket, is_live, Event, connecting_with, reconnecting_with,
  closing_down, opening, timing, close, step, run,
}
use optiflow.Socket.Invariant.{Inv, IsInSession, started, started-Inv, step-Inv, run-Inv}

close_parts :
    (s : Socket)
    → ((close s).closed_by_caller ≡ true)
      × ((close s).next_socket ≡ s.next_socket)
      × ((close s).next_timer ≡ s.next_timer)
      × ((step {N = Unit {0}} s closing_down).0 ≡ close s)
unfolding close step
close_parts s = ground arith

pub close-Inv : (s : Socket) → Inv s → Inv (close s)
close-Inv s inv = subst Inv (close_parts s).3 (step-Inv {N = Unit {0}} s closing_down inv tt)

module _ {N : Type 0} where
  -- In a session that starts with one connect, however opens, closes, errors, messages, timers and
  -- token changes interleave: two WebSockets that are not closed are the same one, and while one is
  -- not closed no reconnect timer is pending.
  pub session-one_connection :
      (token : String) (h : Handlers) (es : List (Event N))
      → truthy token ≡ true
      → All IsInSession es
      → (i j t : ℕ) → is_live ((run (started token h) es).phase i) ≡ true
      → ((is_live ((run (started token h) es).phase j) && not (i == j)) ≡ false)
        × ((run (started token h) es).pending t ≡ false)
  session-one_connection token h es truth ok i j t l =
      let inv = run-Inv (started token h) es (started-Inv token h truth) ok in
      (ground (arith, inv.latest i l, inv.latest j), ground (arith, inv.exclusive t i))

  -- In a session that starts with one connect with a token that is not empty, the socket never
  -- gives up: until the caller closes it, its last WebSocket is
  -- not closed, or a reconnect timer is pending and `reconnectTimer` holds it.
  pub session-alive :
      (token : String) (h : Handlers) (es : List (Event N))
      → truthy token ≡ true
      → All IsInSession es
      → (run (started token h) es).closed_by_caller ≡ false
      → (is_live ((run (started token h) es).phase ((run (started token h) es).next_socket - 1))
          ≡ true)
        ⊎ ((t : ℕ) × ((run (started token h) es).pending t ≡ true)
            × ((run (started token h) es).reconnect_timer ≡ some t))
  session-alive token h es truth ok c =
      let inv = run-Inv (started token h) es (started-Inv token h truth) ok in
      elim (inv.alive c) [ inl l ↦ inl l | inr p ↦ inr (_, p, inv.timer_known _ p) ]

  step_after_close :
      (s : Socket) (e : Event N)
      → Inv s
      → IsInSession e
      → s.closed_by_caller ≡ true
      → ((step s e).0.closed_by_caller ≡ true)
        × ((step s e).0.next_socket ≡ s.next_socket)
        × ((step s e).0.next_timer ≡ s.next_timer)
  unfolding step
  step_after_close s (timing t) inv ok c = ground (arith, inv.quiet t)
  step_after_close s (opening i) inv ok c = ground arith
  step_after_close s _ inv ok c = ground arith

  run_closed :
      (s : Socket) (es : List (Event N))
      → Inv s
      → All IsInSession es
      → s.closed_by_caller ≡ true
      → ((run s es).closed_by_caller ≡ true)
        × ((run s es).next_socket ≡ s.next_socket)
        × ((run s es).next_timer ≡ s.next_timer)
  unfolding run
  run_closed s [] inv ok c = (c, refl, refl)
  run_closed s (e ∷ es) inv (ok, oks) c =
      let (c', n, t) = step_after_close s e inv ok c in
      let (c'', n', t') = run_closed (step s e).0 es (step-Inv s e inv ok) oks c' in
      (c'', n' ∙ n, t' ∙ t)

  -- After the caller's close of a socket in a session (Inv), nothing that comes late but a new
  -- connect makes a new WebSocket or sets a new timer, and no timer is left pending.
  pub run_after_close :
      (s : Socket) (es : List (Event N))
      → Inv s
      → All IsInSession es
      → (t : ℕ)
      → ((run (close s) es).next_socket ≡ s.next_socket)
        × ((run (close s) es).next_timer ≡ s.next_timer)
        × ((run (close s) es).pending t ≡ false)
  run_after_close s es inv ok t =
      let (c, n, m, _) = close_parts s in
      let (c', n', m') = run_closed (close s) es (close-Inv s inv) ok c in
      (n' ∙ n, m' ∙ m, (run-Inv (close s) es (close-Inv s inv) ok).quiet t c')

module _ (N : Type 0) where
  -- A token change while socket i is connecting or open, its close event and the timer that this
  -- sets: the next WebSocket carries the new token, and socket i is closed.
  pub reconnect_with_token_lem :
      (s : Socket) (i : ℕ) (token : String)
      → Inv s
      → truthy token ≡ true
      → is_live (s.phase i) ≡ true
      → s.closed_by_caller ≡ false
      → let s' =
          run {N = N} s (reconnecting_with token ∷ Event.closing i ∷ timing s.next_timer ∷ []) in
        (s'.socket ≡ some s.next_socket)
        × (s'.phase s.next_socket ≡ connecting)
        × (s'.query_token s.next_socket ≡ token)
        × (s'.phase i ≡ closed)
  unfolding run step
  reconnect_with_token_lem s i token inv truth l c =
      ground (arith, inv.latest i l, inv.current i l c)

  -- The object is not made for a second connect: with the first WebSocket not closed, the second
  -- one is made beside it.
  pub connect_twice :
      (s : Socket) (i : ℕ) (token : String) (h : Handlers)
      → Inv s
      → truthy token ≡ true
      → is_live (s.phase i) ≡ true
      → let s' = (step {N = N} s (connecting_with token h)).0 in
        (s'.phase i ≡ s.phase i) × (s'.phase s.next_socket ≡ connecting) × (i ≢ s.next_socket)
  unfolding step
  connect_twice s i token h inv truth l = ground (arith, inv.latest i l)
