-- ===== src/Tests/BridgeTests.antt =====
-- lib/api/session-bridge.tsx at concrete inputs.
use optiflow.Prelude.{◌≡◌, refl, none, some, [], ◌∷◌}
use optiflow.Token.{Store, parsing, auth_failure}
use optiflow.Auth.{Jwt, Session}
use optiflow.Bridge.{on_effects, sign_out, render}

abbrev reading : Store
reading = record {
  access_token = some "old";
  refresh_token = some "r";
  callbacks = some 9;
  refresh_promise = some 0;
  listeners = 4 ∷ 7 ∷ [];
  chains = λ p. parsing;
  next_promise = 1;
}

abbrev signed_in : Jwt
signed_in = record {
  id = some "u1";
  name = some "Ann";
  access_token = some "old";
  refresh_token = some "r";
}

abbrev blank : Session
blank = record { user_id = none; user_name = none; access_token = none; refresh_token = none }

-- a render with the same tokens runs no effect, and a failed refresh signs out
quiet :
    (render (record { access_token = none; refresh_token = none }) none reading ≡ (reading, []))
    × (on_effects (auth_failure 9 ∷ []) ≡ sign_out "/signin" ∷ [])
unfolding render on_effects
quiet = (refl, refl)
