-- ===== src/Socket/Invariant.antt =====
-- lib/api/ws.ts: what holds of a NotificationSocket between two events after one call of connect.
use optiflow.Prelude.{
  ℕ, suc, ◌-◌, ◌≤◌, ◌<◌, ◌≡◌, ◌⊎◌, true, false, some, List, [], ◌∷◌, arith, String, is_truthy,
  truthy, All,
}
use optiflow.Socket.{
  unborn, Handlers, Socket, new_socket, is_live, Event, connecting_with, reconnecting_with, opening,
  erring, timing, receiving, connect, step, run,
}

pub record Inv (s : Socket) : Type 0 where
  pub token_given : is_truthy s.token ≡ true
  pub born : 0 < s.next_socket
  pub latest : (i : ℕ) → is_live (s.phase i) ≡ true → suc i ≡ s.next_socket
  pub current :
      (i : ℕ) → is_live (s.phase i) ≡ true → s.closed_by_caller ≡ false → s.socket ≡ some i
  pub timer_known : (t : ℕ) → s.pending t ≡ true → s.reconnect_timer ≡ some t
  pub exclusive : (t i : ℕ) → s.pending t ≡ true → is_live (s.phase i) ≡ false
  pub quiet : (t : ℕ) → s.closed_by_caller ≡ true → s.pending t ≡ false
  pub unborn_from : (i : ℕ) → s.next_socket ≤ i → s.phase i ≡ unborn
  pub alive :
      s.closed_by_caller ≡ false
      → (is_live (s.phase (s.next_socket - 1)) ≡ true) ⊎ (s.pending (s.next_timer - 1) ≡ true)

-- The events of a session: no second connect, and no empty token.
abbrev pub IsInSession : {N : Type 0} → Event N → Type 0
IsInSession (connecting_with token h) = ⊥
IsInSession (reconnecting_with token) = truthy token ≡ true
IsInSession _ = Unit

abbrev pub about : {N : Type 0} → Event N → ℕ
about (opening i) = i
about (Event.closing i) = i
about (erring i) = i
about (timing i) = i
about (receiving i n) = i
about _ = 0

module _ {N : Type 0} (s : Socket) (e : Event N) (h : Inv s) (ok : IsInSession e) where
  step_token : is_truthy (step s e).0.token ≡ true
  unfolding step
  step_token = ground (arith, h.token_given)

  step_born : 0 < (step s e).0.next_socket
  unfolding step
  step_born = ground (arith, h.born)

  step_latest : (i : ℕ) → is_live ((step s e).0.phase i) ≡ true → suc i ≡ (step s e).0.next_socket
  unfolding step
  step_latest i l =
      ground (arith, h.latest i, h.latest (about e), h.exclusive (about e) i, h.token_given)

  step_current :
      (i : ℕ)
      → is_live ((step s e).0.phase i) ≡ true
      → (step s e).0.closed_by_caller ≡ false
      → (step s e).0.socket ≡ some i
  unfolding step
  step_current i l c =
      ground (arith, h.current i, h.current (about e), h.exclusive (about e) i, h.token_given)

  step_timer : (t : ℕ) → (step s e).0.pending t ≡ true → (step s e).0.reconnect_timer ≡ some t
  unfolding step
  step_timer t p = ground (arith, h.timer_known t, h.timer_known (about e), h.exclusive t (about e))

  step_exclusive :
      (t i : ℕ) → (step s e).0.pending t ≡ true → is_live ((step s e).0.phase i) ≡ false
  unfolding step
  step_exclusive t i p = ground (
    arith,
    h.timer_known t,
    h.timer_known (about e),
    h.exclusive t i,
    h.exclusive t (about e),
    h.latest i,
    h.latest (about e),
  )

  step_quiet : (t : ℕ) → (step s e).0.closed_by_caller ≡ true → (step s e).0.pending t ≡ false
  unfolding step
  step_quiet t c = ground (arith, h.quiet t, h.timer_known t)

  step_unborn : (i : ℕ) → (step s e).0.next_socket ≤ i → (step s e).0.phase i ≡ unborn
  unfolding step
  step_unborn i l = ground (arith, h.unborn_from i, h.unborn_from (about e))

  step_alive :
      (step s e).0.closed_by_caller ≡ false
      → (is_live ((step s e).0.phase ((step s e).0.next_socket - 1)) ≡ true)
        ⊎ ((step s e).0.pending ((step s e).0.next_timer - 1) ≡ true)
  unfolding step
  step_alive c = ground (arith, h.alive)

  pub step-Inv : Inv (step s e).0
  step-Inv = record {
    token_given = step_token;
    born = step_born;
    latest = step_latest;
    current = step_current;
    timer_known = step_timer;
    exclusive = step_exclusive;
    quiet = step_quiet;
    unborn_from = step_unborn;
    alive = step_alive;
  }

-- The socket right after `new NotificationSocket().connect(token, handlers)`.
abbrev pub started : String → Handlers → Socket
started token h = (connect {N = Unit {0}} token h new_socket).0

pub connect-Inv :
    (N : Type 0) (token : String) (h : Handlers)
    → truthy token ≡ true
    → Inv (connect {N = N} token h new_socket).0
unfolding connect
connect-Inv N token h t = record {
  token_given = ground arith;
  born = ground arith;
  latest = λ i l. ground arith;
  current = λ i l c. ground arith;
  timer_known = λ i p. ground arith;
  exclusive = λ i j p. ground arith;
  quiet = λ i c. ground arith;
  unborn_from = λ i l. ground arith;
  alive = λ c. ground arith;
}

pub started-Inv : (token : String) (h : Handlers) → truthy token ≡ true → Inv (started token h)
started-Inv token h t = connect-Inv _ token h t

pub run-Inv :
    {N : Type 0} (s : Socket) (es : List (Event N)) → Inv s → All IsInSession es → Inv (run s es)
unfolding run
run-Inv s [] h ok = h
run-Inv s (e ∷ es) h (ok, oks) = run-Inv (step s e).0 es (step-Inv s e h ok) oks
