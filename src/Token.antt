-- ===== src/Token.antt =====
-- lib/api/token.ts (frontend): the module's variables, its exported functions, and the promise
-- chain that refreshAccessToken builds.
--
-- A promise is a number, `next_promise` the next one. `chains p` is how far the chain behind
-- promise p has come: its handlers run in later turns of the event loop, so other calls come in
-- between. A callback or a listener is the number of the function object; it is taken to return
-- without throwing, and calling it is an `Effect`.
pub mod Flight
pub mod Listeners
use optiflow.Prelude.{
  ℕ, ◌+◌, Bool, true, false, not, Option, none, some, List, [], ◌∷◌, ◌++◌, map, String, is_truthy,
  option_eq, if◌then◌else◌, ◌==◌, filter, any,
}

-- Where the chain `fetch.then.catch.finally` stands: before its `then` handler, inside it at
-- `await res.json()`, before the `catch` handler, before the `finally` handler, settled.
pub data Stage : Type 0 where
  absent fetching parsing thrown : Stage
  finishing settled : Option String → Stage

pub data Effect : Type 0 where
  notify : ℕ → Option String → Effect
  fetch_refresh : ℕ → String → Effect
  token_refreshed : ℕ → String → Effect
  auth_failure : ℕ → Effect

pub record Store : Type 0 where
  pub access_token : Option String
  pub refresh_token : Option String
  pub callbacks : Option ℕ
  pub refresh_promise : Option ℕ
  pub listeners : List ℕ
  pub chains : ℕ → Stage
  pub next_promise : ℕ

abbrev pub initial : Store
initial = record {
  access_token = none;
  refresh_token = none;
  callbacks = none;
  refresh_promise = none;
  listeners = [];
  chains = λ p. absent;
  next_promise = 0;
}

unfoldable pub notify_listeners : Store → List Effect
notify_listeners s = map (λ l. notify l s.access_token) s.listeners

-- `Set.add` keeps the order of insertion
unfoldable pub subscribe_access_token : ℕ → Store → Store
subscribe_access_token l s =
    if any (λ k. k == l) s.listeners then s else record s { listeners = s.listeners ++ l ∷ [] }

-- the function that subscribeAccessToken returns
unfoldable pub unsubscribe : ℕ → Store → Store
unsubscribe l s = record s { listeners = filter (λ k. not (k == l)) s.listeners }

unfoldable pub set_tokens : Option String → Option String → Store → Store × List Effect
unfolding notify_listeners
set_tokens access refresh s =
    let changed = not (option_eq s.access_token access) in
    let s' : Store = record s { access_token = access; refresh_token = refresh } in
    (s', if changed then notify_listeners s' else [])

unfoldable pub configure_api_client : ℕ → Store → Store
configure_api_client cb s = record s { callbacks = some cb }

-- `callbacks?.onAuthFailure()` and `callbacks?.onTokenRefreshed(token)`
abbrev pub on_auth_failure : Option ℕ → List Effect
on_auth_failure none = []
on_auth_failure (some cb) = auth_failure cb ∷ []

abbrev pub on_token_refreshed : Option ℕ → String → List Effect
on_token_refreshed none t = []
on_token_refreshed (some cb) t = token_refreshed cb t ∷ []

abbrev pub set_stage : ℕ → Stage → (ℕ → Stage) → ℕ → Stage
set_stage p st chains q = if p == q then st else chains q

-- What the caller of refreshAccessToken gets: a rejected promise, or the shared one.
pub data Call : Type 0 where
  rejected : Call
  promise : ℕ → Call

start_refresh : String → Option ℕ → Store → Store × List Effect × Call
start_refresh token (some p) s = (s, [], promise p)
start_refresh token none s =
    let p = s.next_promise in
    (
      record s {
        refresh_promise = some p;
        chains = set_stage p fetching s.chains;
        next_promise = p + 1;
      },
      fetch_refresh p token ∷ [],
      promise p,
    )

refresh_with : Option String → Store → Store × List Effect × Call
unfolding start_refresh
refresh_with none s = (s, on_auth_failure s.callbacks, rejected)
refresh_with (some token) s =
    if is_truthy (some token)
    then start_refresh token s.refresh_promise s
    else (s, on_auth_failure s.callbacks, rejected)

unfoldable pub refresh_access_token : Store → Store × List Effect × Call
unfolding refresh_with
refresh_access_token s = refresh_with s.refresh_token s

-- What wakes a chain: the answer of fetch, the answer of `res.json()`, or the next turn.
pub data Signal : Type 0 where
  fetch_ok fetch_not_ok fetch_error json_error turn : Signal
  json_ok : String → Signal

-- The handlers of the chain behind p; a signal that the stage does not wait for changes nothing.
advance : ℕ → Stage → Signal → Store → Store × List Effect
unfolding notify_listeners
advance p fetching fetch_ok s = (record s { chains = set_stage p parsing s.chains }, [])
advance p fetching fetch_not_ok s = (record s { chains = set_stage p thrown s.chains }, [])
advance p fetching fetch_error s = (record s { chains = set_stage p thrown s.chains }, [])
advance p parsing (json_ok token) s =
    let s' : Store = record s {
      access_token = some token;
      chains = set_stage p (finishing (some token)) s.chains;
    } in
    (s', notify_listeners s' ++ on_token_refreshed s.callbacks token)
advance p parsing json_error s = (record s { chains = set_stage p thrown s.chains }, [])
advance p thrown turn s =
    (record s { chains = set_stage p (finishing none) s.chains }, on_auth_failure s.callbacks)
advance p (finishing r) turn s =
    (record s { refresh_promise = none; chains = set_stage p (settled r) s.chains }, [])
advance p _ _ s = (s, [])

pub data Event : Type 0 where
  subscribing unsubscribing configuring : ℕ → Event
  setting : Option String → Option String → Event
  refreshing : Event
  waking : ℕ → Signal → Event

unfoldable pub step : Store → Event → Store × List Effect
unfolding subscribe_access_token unsubscribe set_tokens configure_api_client refresh_access_token
    advance
step s (subscribing l) = (subscribe_access_token l s, [])
step s (unsubscribing l) = (unsubscribe l s, [])
step s (configuring cb) = (configure_api_client cb s, [])
step s (setting access refresh) = set_tokens access refresh s
step s refreshing = let (s', es, c) = refresh_access_token s in (s', es)
step s (waking p sig) = advance p (s.chains p) sig s

unfoldable pub run : Store → List Event → Store
run s [] = s
run s (e ∷ es) = run (step s e).0 es
