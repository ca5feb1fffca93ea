-- ===== src/Bridge/Settling.antt =====
-- lib/api/session-bridge.tsx: a refresh comes back through the session and changes nothing more.
use optiflow.Prelude.{
  ℕ, ◌≡◌, refl, Option, some, List, [], ◌∷◌, ◌++◌, map, String, arith, option_eq_iff,
}
use optiflow.Token.{
  Store, parsing, Effect, notify, token_refreshed, waking, json_ok, step, set_tokens,
}
use optiflow.Auth.{Jwt, Session, jwt, session}
use optiflow.Bridge.{token_effect, on_effects, update_session, updated}

set_tokens-same : (st : Store) → set_tokens st.access_token st.refresh_token st ≡ (st, [])
unfolding set_tokens
set_tokens-same st = ground (arith, (option_eq_iff st.access_token st.access_token).1 refl)

on_effects-notify :
    (ls : List ℕ) (v : Option String) (es : List Effect)
    → on_effects (map (λ l. notify l v) ls ++ es) ≡ on_effects es
unfolding on_effects
on_effects-notify [] v es = refl
on_effects-notify (l ∷ ls) v es = on_effects-notify ls v es

token_effect-same :
    (s : Session) (st : Store)
    → s.access_token ≡ st.access_token
    → s.refresh_token ≡ st.refresh_token
    → token_effect (some s) st ≡ (st, [])
unfolding token_effect
token_effect-same s st a r = ground (arith, a, r, set_tokens-same st)

-- When the answer of a refresh is read, with callbacks in place and the refresh token of the
-- session's JWT in the store: the store has the new access token and the session is told of it by
-- exactly one update; and the setTokens that the updated session leads to finds the store as it has
-- to be: it changes nothing and calls no listener, so that the round trip ends.
pub refreshed-settles :
    (s : Store) (p cb : ℕ) (t r : String) (j : Jwt) (base : Session)
    → s.chains p ≡ parsing
    → s.callbacks ≡ some cb
    → j.refresh_token ≡ some r
    → s.refresh_token ≡ some r
    → let (s', es) = step s (waking p (json_ok t)) in
      (s'.access_token ≡ some t)
      × (on_effects es ≡ update_session t ∷ [])
      × (token_effect (some (session (updated t j) base)) s' ≡ (s', []))
unfolding step updated session jwt on_effects
refreshed-settles s p cb t r j base c b k l = (
  ground (arith, c),
  ground (arith, c, b, on_effects-notify s.listeners (some t) (token_refreshed cb t ∷ [])),
  token_effect-same (session (updated t j) base) _ (ground (arith, c)) (ground (arith, c, k, l)),
)
