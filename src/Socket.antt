-- ===== src/Socket.antt =====
-- lib/api/ws.ts (frontend): NotificationSocket, one field of the class for each field here.
--
-- The browser is part of the state: `phase i` and `query_token i` are the i-th WebSocket that was
-- made and the token in its URL, `pending t` says that timer t has been set and neither cleared
-- nor fired. An event of the browser that the phase rules out changes nothing: `open` comes to a
-- connecting socket, a message to an open one, and `close` and `error` until the socket is closed.
-- The constructor of WebSocket and the handlers are taken to return without throwing.
pub mod Backoff
pub mod Session
pub mod Invariant
use optiflow.Prelude.{
  ℕ, ◌+◌, ◌*◌, ◌^◌, min, Bool, true, false, not, ◌&&◌, Option, none, some, List, [], ◌∷◌, ◌++◌,
  String, is_truthy, if◌then◌else◌, ◌==◌,
}

pub data Phase : Type 0 where
  unborn connecting opened closing closed : Phase

-- What the class does to the outside: `onStatusChange`, `onMessage`, `new WebSocket` with its
-- token, `setTimeout` with its delay.
pub data Effect (N : Type 0) : Type 0 where
  status_connecting status_open status_closed : Effect N
  message : N → Effect N
  new_web_socket : ℕ → String → Effect N
  set_timeout : ℕ → ℕ → Effect N

-- `Handlers`: whether the optional `onStatusChange` is there
pub record Handlers : Type 0 where
  pub on_status_change : Bool

pub record Socket : Type 0 where
  pub socket : Option ℕ
  pub handlers : Option Handlers
  pub token : Option String
  pub reconnect_attempt : ℕ
  pub reconnect_timer : Option ℕ
  pub closed_by_caller : Bool
  pub phase : ℕ → Phase
  pub query_token : ℕ → String
  pub next_socket : ℕ
  pub pending : ℕ → Bool
  pub next_timer : ℕ

-- `new NotificationSocket()`
abbrev pub new_socket : Socket
new_socket = record {
  socket = none;
  handlers = none;
  token = none;
  reconnect_attempt = 0;
  reconnect_timer = none;
  closed_by_caller = false;
  phase = λ i. unborn;
  query_token = λ i. "";
  next_socket = 0;
  pending = λ t. false;
  next_timer = 0;
}

abbrev pub max_backoff_ms : ℕ
max_backoff_ms = 30000

-- The delay of scheduleReconnect.
unfoldable pub backoff : ℕ → ℕ
backoff attempt = min (1000 * 2 ^ attempt) max_backoff_ms

abbrev pub set_at {ℓ} : {A : Type ℓ} → ℕ → A → (ℕ → A) → ℕ → A
set_at i a f j = if i == j then a else f j

-- `socket.close()` of the browser
abbrev pub close_phase : Phase → Phase
close_phase connecting = closing
close_phase opened = closing
close_phase p = p

close_web_socket : Option ℕ → Socket → Socket
close_web_socket none s = s
close_web_socket (some i) s = record s { phase = set_at i (close_phase (s.phase i)) s.phase }

clear_timer : Option ℕ → Socket → Socket
clear_timer none s = s
clear_timer (some t) s = record s { pending = set_at t false s.pending; reconnect_timer = none }

clear_reconnect_timer : Socket → Socket
unfolding clear_timer
clear_reconnect_timer s = clear_timer s.reconnect_timer s

unfoldable pub reconnect_with_token : String → Socket → Socket
unfolding close_web_socket
reconnect_with_token token s =
    let s' : Socket = record s { token = some token } in
    if s.closed_by_caller then s' else close_web_socket s'.socket s'

unfoldable pub close : Socket → Socket
unfolding clear_reconnect_timer close_web_socket
close s =
    let s' = clear_reconnect_timer (record s { closed_by_caller = true }) in
    let s'' = close_web_socket s'.socket s' in record s'' { socket = none }

abbrev pub is_live : Phase → Bool
is_live unborn = false
is_live closed = false
is_live _ = true

-- `this.socket?.close()`, whichever socket had the error
on_error : ℕ → Socket → Socket
unfolding close_web_socket
on_error i s = if is_live (s.phase i) then close_web_socket s.socket s else s

module _ {N : Type 0} where
  -- `this.handlers?.onStatusChange?.(status)`
  abbrev pub tell : Option Handlers → Effect N → List (Effect N)
  tell none e = []
  tell (some h) e = if h.on_status_change then e ∷ [] else []

  abbrev pub deliver : Option Handlers → N → List (Effect N)
  deliver none n = []
  deliver (some h) n = message n ∷ []

  open_with : Option String → Socket → Socket × List (Effect N)
  open_with none s = (s, [])
  open_with (some token) s =
      if is_truthy (some token)
      then (let s' = clear_reconnect_timer s in
          let i = s'.next_socket in
          (
            record s' {
              socket = some i;
              phase = set_at i connecting s'.phase;
              query_token = set_at i token s'.query_token;
              next_socket = i + 1;
            },
            new_web_socket i token ∷ tell s.handlers status_connecting,
          ))
      else (s, [])

  -- the private method `open`
  open_socket : Socket → Socket × List (Effect N)
  unfolding open_with clear_reconnect_timer
  open_socket s = open_with s.token s

  unfoldable pub connect : String → Handlers → Socket → Socket × List (Effect N)
  unfolding open_socket
  connect token handlers s = open_socket (record s {
    token = some token;
    handlers = some handlers;
    closed_by_caller = false;
    reconnect_attempt = 0;
  })

  schedule_reconnect : Socket → Socket × List (Effect N)
  unfolding backoff
  schedule_reconnect s =
      let t = s.next_timer in
      (
        record s {
          reconnect_attempt = s.reconnect_attempt + 1;
          reconnect_timer = some t;
          pending = set_at t true s.pending;
          next_timer = t + 1;
        },
        set_timeout t (backoff s.reconnect_attempt) ∷ [],
      )

  -- The handlers of socket i, each for the phases in which the browser calls it.
  on_open : ℕ → Phase → Socket → Socket × List (Effect N)
  on_open i connecting s = (
    record s { phase = set_at i opened s.phase; reconnect_attempt = 0 },
    tell s.handlers status_open,
  )
  on_open i _ s = (s, [])

  -- `none` is a text that JSON.parse refuses
  on_message : Phase → Option N → Socket → Socket × List (Effect N)
  on_message opened (some n) s = (s, deliver s.handlers n)
  on_message _ _ s = (s, [])

  after_close : Socket → Socket × List (Effect N)
  unfolding schedule_reconnect
  after_close s =
      if s.closed_by_caller
      then (s, tell s.handlers status_closed)
      else (let (s', es) = schedule_reconnect s in (s', tell s.handlers status_closed ++ es))

  on_close : ℕ → Socket → Socket × List (Effect N)
  unfolding after_close
  on_close i s =
      if is_live (s.phase i)
      then after_close (record s { phase = set_at i closed s.phase })
      else (s, [])

  on_timer : ℕ → Socket → Socket × List (Effect N)
  unfolding open_socket
  on_timer t s =
      if s.pending t then open_socket (record s { pending = set_at t false s.pending }) else (s, [])

pub data Event (N : Type 0) : Type 0 where
  connecting_with : String → Handlers → Event N
  reconnecting_with : String → Event N
  closing_down : Event N
  opening closing erring timing : ℕ → Event N
  receiving : ℕ → Option N → Event N

module _ {N : Type 0} where
  unfoldable pub step : Socket → Event N → Socket × List (Effect N)
  unfolding connect reconnect_with_token close on_open on_message on_close on_error on_timer
  step s (connecting_with token h) = connect token h s
  step s (reconnecting_with token) = (reconnect_with_token token s, [])
  step s closing_down = (close s, [])
  step s (opening i) = on_open i (s.phase i) s
  step s (Event.closing i) = on_close i s
  step s (erring i) = (on_error i s, [])
  step s (timing t) = on_timer t s
  step s (receiving i n) = on_message (s.phase i) n s

  unfoldable pub run : Socket → List (Event N) → Socket
  run s [] = s
  run s (e ∷ es) = run (step s e).0 es
