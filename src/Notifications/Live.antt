-- ===== src/Notifications/Live.antt =====
-- useNotificationSocket of lib/hooks/use-notifications.ts (frontend), with the sockets of
-- lib/api/ws.ts that it makes: an effect with the session's access token as its dependency.
--
-- `past` holds the objects of effects that have been cleaned up, the last one first: their
-- WebSockets may still have events. The listener is called only between subscribeAccessToken and
-- `unsubscribe`, so a change of the token comes to the running effect.
pub mod Objects
pub mod Soundness
pub mod Lifetime
use optiflow.Prelude.{
  ℕ, zero, suc, Bool, true, false, Option, none, some, List, [], ◌∷◌, String, truthy, option_eq,
  if◌then◌else◌,
}
use optiflow.Socket
use optiflow.Socket.{
  Socket, Handlers, new_socket, connect, reconnect_with_token, close, Effect, message, Event, step,
}
use optiflow.Notifications.{Notification, Cache, on_message}

-- Whether the effect has run, and for which `session?.accessToken`.
pub data Dependency : Type 0 where
  unmounted : Dependency
  mounted : Option String → Dependency

pub record Live : Type 0 where
  pub dependency : Dependency
  pub current : Option Socket
  pub past : List Socket
  pub cache : Cache

abbrev pub initial : Cache → Live
initial cache = record { dependency = unmounted; current = none; past = []; cache = cache }

-- the effect: `new NotificationSocket()` with its connect
begin : Option String → Live → Live
unfolding connect
begin none l = record l { dependency = mounted none; current = none }
begin (some t) l = record l {
  dependency = mounted (some t);
  current =
      if truthy t
      then some (connect {N = Notification} t (record { on_status_change = false }) new_socket).0
      else none;
}

-- what the effect returns
clean_up_with : Option Socket → Live → Live
unfolding close
clean_up_with none l = l
clean_up_with (some s) l = record l { current = none; past = close s ∷ l.past }

unfoldable pub clean_up : Live → Live
unfolding clean_up_with
clean_up l = clean_up_with l.current l

render_with : Dependency → Option String → Live → Live
unfolding begin clean_up
render_with unmounted token l = begin token l
render_with (mounted old) token l = if option_eq old token then l else begin token (clean_up l)

-- A render at a session's access token: the effect runs at first, and when the token has changed.
unfoldable pub render : Option String → Live → Live
unfolding render_with
render token l = render_with l.dependency token l

unfoldable pub unmount : Live → Live
unfolding clean_up
unmount l = record (clean_up l) { dependency = unmounted }

-- the listener: `if (newToken) socket.reconnectWithToken(newToken)`
listen : Option String → Option Socket → Option Socket
unfolding reconnect_with_token
listen token none = none
listen none (some s) = some s
listen (some t) (some s) = if truthy t then some (reconnect_with_token t s) else some s

-- what the effects of a socket do to the cache
unfoldable pub deliver : List (Effect Notification) → Cache → Cache
unfolding on_message
deliver [] cache = cache
deliver (message n ∷ es) cache = deliver es (on_message n cache)
deliver (_ ∷ es) cache = deliver es cache

-- An event of a WebSocket or a timer.
abbrev pub is_of_browser : Event Notification → Bool
is_of_browser (Socket.connecting_with t h) = false
is_of_browser (Socket.reconnecting_with t) = false
is_of_browser Socket.closing_down = false
is_of_browser _ = true

at_current : Event Notification → Option Socket → Live → Live
unfolding step deliver
at_current e none l = l
at_current e (some s) l =
    let (s', es) = step s e in record l { current = some s'; cache = deliver es l.cache }

-- an event of the k-th of the past objects
pub at_past : Event Notification → ℕ → List Socket → Cache → List Socket × Cache
unfolding step deliver
at_past e k [] cache = ([], cache)
at_past e zero (s ∷ ss) cache = let (s', es) = step s e in (s' ∷ ss, deliver es cache)
at_past e (suc k) (s ∷ ss) cache = let (ss', cache') = at_past e k ss cache in (s ∷ ss', cache')

pub data Happening : Type 0 where
  rendering token_changing : Option String → Happening
  unmounting : Happening
  now : Event Notification → Happening
  late : ℕ → Event Notification → Happening

unfoldable pub happen : Live → Happening → Live
unfolding render unmount listen at_current at_past
happen l (rendering token) = render token l
happen l (token_changing token) = record l { current = listen token l.current }
happen l unmounting = unmount l
happen l (now e) = if is_of_browser e then at_current e l.current l else l
happen l (late k e) =
    if is_of_browser e
    then (let (past, cache) = at_past e k l.past l.cache in record l { past = past; cache = cache })
    else l

unfoldable pub course : Live → List Happening → Live
course l [] = l
course l (h ∷ hs) = course (happen l h) hs
