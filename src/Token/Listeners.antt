-- ===== src/Token/Listeners.antt =====
-- lib/api/token.ts: who hears of a new access token, and what a sign-out leaves behind.
use optiflow.Prelude.{
  ℕ, ◌≡◌, refl, ◌≢◌, true, Option, none, some, List, [], ◌∷◌, ◌++◌, map, arith, String,
  option_eq_iff, All,
}
use mathlib.Core.List.{append-nil}
use optiflow.Token.{
  Stage, parsing, Effect, notify, Store, Event, subscribing, setting, waking, Signal, json_ok,
  on_token_refreshed, step, run, advance,
}
use optiflow.Token.Flight.{Inv, is_live, step-Inv}

-- A call of every listener of `s`, in order, with `token`.
abbrev pub all_told : Store → Option String → List Effect
all_told s token = map (λ l. notify l token) s.listeners

advance-all_told :
    (p : ℕ) (st : Stage) (sig : Signal) (s : Store)
    → (advance p st sig s).0.access_token ≢ s.access_token
    → (rest : List Effect) × ((advance p st sig s).1
        ≡ all_told s (advance p st sig s).0.access_token ++ rest)
unfolding advance
advance-all_told p parsing (json_ok token) s h = (on_token_refreshed s.callbacks token, refl)
advance-all_told p _ _ s h = absurd (ground arith)

-- Whatever happens, a step that leaves another access token than it found begins by calling every
-- listener, once each and in the order of subscription, with the new token.
pub step-all_told :
    (s : Store) (e : Event)
    → (step s e).0.access_token ≢ s.access_token
    → (rest : List Effect) × ((step s e).1 ≡ all_told s (step s e).0.access_token ++ rest)
unfolding step
step-all_told s (setting access refresh) h =
    ([], rw append-nil (ground (arith, option_eq_iff s.access_token access)))
step-all_told s (waking p sig) h = advance-all_told p (s.chains p) sig s h
step-all_told s (subscribing l) h = absurd (ground arith)
step-all_told s _ h = absurd (ground arith)

-- A signed-out store: no tokens, and no refresh in flight.
abbrev pub IsSignedOut : Store → Type 0
IsSignedOut s = (s.access_token ≡ none) × (s.refresh_token ≡ none) × (s.refresh_promise ≡ none)

-- Every event but a call of setTokens.
abbrev pub IsNotSetting : Event → Type 0
IsNotSetting (setting access refresh) = ⊥
IsNotSetting _ = Unit

advance-IsSignedOut :
    (p : ℕ) (st : Stage) (sig : Signal) (s : Store)
    → (is_live st ≡ true → s.refresh_promise ≡ some p)
    → IsSignedOut s
    → IsSignedOut (advance p st sig s).0
unfolding advance
advance-IsSignedOut p parsing sig s shared h = absurd (ground (arith, shared refl))
advance-IsSignedOut p _ _ s shared h = ground arith

step-IsSignedOut :
    (s : Store) (e : Event) → Inv s → IsNotSetting e → IsSignedOut s → IsSignedOut (step s e).0
unfolding step
step-IsSignedOut s (waking p sig) inv q h =
    advance-IsSignedOut p (s.chains p) sig s (inv.shared p) h
step-IsSignedOut s (setting access refresh) inv q h = absurd q
step-IsSignedOut s _ inv q h = ground arith

-- A store that is signed out with no refresh in flight stays so, whatever calls and late answers
-- follow, until setTokens is called.
pub run-IsSignedOut :
    (s : Store) (es : List Event)
    → Inv s
    → All IsNotSetting es
    → IsSignedOut s
    → IsSignedOut (run s es)
unfolding run
run-IsSignedOut s [] inv q h = h
run-IsSignedOut s (e ∷ es) inv (q, qs) h =
    run-IsSignedOut (step s e).0 es (step-Inv s e inv) qs (step-IsSignedOut s e inv q h)

-- A sign-out does not reach a refresh whose answer is being read: when the answer arrives, the
-- access token is set again though setTokens had cleared it, and each listener is told of it.
pub sign_out-revived :
    (s : Store) (p : ℕ) (token : String)
    → s.chains p ≡ parsing
    → let out = (step s (setting none none)).0 in
      ((step out (waking p (json_ok token))).0.access_token ≡ some token)
      × ((step out (waking p (json_ok token))).0.refresh_token ≡ none)
      × ((step out (waking p (json_ok token))).1
          ≡ all_told s (some token) ++ on_token_refreshed s.callbacks token)
unfolding step
sign_out-revived s p token h = rw h (refl, refl, refl)
