-- ===== src/Bridge.antt =====
-- lib/api/session-bridge.tsx (frontend): ApiSessionBridge, between NextAuth's session and
-- lib/api/token.ts.
--
-- `update` sends the access token to the server, whose jwt callback puts it into the JWT, and the
-- session is read again (lib/auth.ts). React runs an effect after a render in which one of its
-- dependencies has changed.
pub mod Settling
use optiflow.Prelude.{
  ℕ, Bool, true, false, not, ◌&&◌, Option, none, some, List, [], ◌∷◌, ◌++◌, String, option_eq,
  if◌then◌else◌,
}
use optiflow.Token.{Store, Effect, token_refreshed, auth_failure, set_tokens, configure_api_client}
use optiflow.Auth.{Jwt, Session, SessionUpdate, update, jwt, session}

-- The dependencies of the first effect at a render.
pub record Tokens : Type 0 where
  pub access_token : Option String
  pub refresh_token : Option String

-- `session?.accessToken`, `session?.refreshToken`
abbrev pub tokens_of : Option Session → Tokens
tokens_of none = record { access_token = none; refresh_token = none }
tokens_of (some s) = record { access_token = s.access_token; refresh_token = s.refresh_token }

abbrev pub same_tokens : Tokens → Tokens → Bool
same_tokens t u =
    option_eq t.access_token u.access_token && option_eq t.refresh_token u.refresh_token

-- The first effect: setTokens.
unfoldable pub token_effect : Option Session → Store → Store × List Effect
token_effect s st = let t = tokens_of s in set_tokens t.access_token t.refresh_token st

-- It runs if the tokens are not those of the last render.
unfoldable pub render : Tokens → Option Session → Store → Store × List Effect
unfolding token_effect
render last s st = if same_tokens last (tokens_of s) then (st, []) else token_effect s st

-- The second effect, at mounting and when `update` is another function.
unfoldable pub callbacks_effect : ℕ → Store → Store
callbacks_effect cb st = configure_api_client cb st

-- What the callbacks do: `update({ accessToken })`, `signOut({ callbackUrl })`.
pub data Request : Type 0 where
  update_session : String → Request
  sign_out : String → Request

-- The callbacks that the bridge passed as `cb`, for an effect of lib/api/token.ts.
unfoldable pub on_effect : Effect → List Request
on_effect (token_refreshed cb t) = update_session t ∷ []
on_effect (auth_failure cb) = sign_out "/signin" ∷ []
on_effect _ = []

unfoldable pub on_effects : List Effect → List Request
unfolding on_effect
on_effects [] = []
on_effects (e ∷ es) = on_effect e ++ on_effects es

-- `update({ accessToken: t })` on the server: the JWT, and the session that is read from it.
unfoldable pub updated : String → Jwt → Jwt
updated t j = jwt none (update (record { access_token = some t; name = none })) j
