-- ===== src/Tests/TokenTests.antt =====
-- lib/api/token.ts at concrete inputs.
use optiflow.Prelude.{
  ℕ, ◌≡◌, refl, ◌≢◌, ◌++◌, Option, none, some, List, [], ◌∷◌, String, arith, str_eq_iff,
}
use optiflow.Token.{
  Store, initial, parsing, Event, subscribing, configuring, setting, refreshing, waking, fetch_ok,
  json_ok, turn, step, run, on_token_refreshed,
}
use optiflow.Token.Flight.{run-single_flight}
use optiflow.Token.Listeners.{all_told, sign_out-revived}

abbrev signed_in : List Event
signed_in = configuring 9 ∷ subscribing 4 ∷ setting (some "old") (some "r") ∷ []

-- two requests are refused at once
abbrev twice_refused : List Event
twice_refused =
    configuring 9 ∷ subscribing 4 ∷ setting (some "old") (some "r") ∷ refreshing ∷ refreshing ∷ []

run-single_flight_example : ◌≡◌ {A = ℕ} 0 0
unfolding run step
run-single_flight_example = run-single_flight twice_refused 0 0 refl refl

abbrev reading : Store
reading = record (initial) {
  access_token = some "old";
  refresh_token = some "r";
  callbacks = some 9;
  refresh_promise = some 0;
  listeners = 4 ∷ 7 ∷ [];
  chains = λ p. parsing;
  next_promise = 1;
}

other_token : ◌≢◌ {A = Option String} (some "new") (some "old")
other_token = ground (arith, str_eq_iff "new" "old")

sign_out-revived_example :
    let out = (step reading (setting none none)).0 in
    ((step out (waking 0 (json_ok "new"))).0.access_token ≡ some "new")
    × ((step out (waking 0 (json_ok "new"))).0.refresh_token ≡ none)
    × ((step out (waking 0 (json_ok "new"))).1
        ≡ all_told reading (some "new") ++ on_token_refreshed reading.callbacks "new")
sign_out-revived_example = sign_out-revived reading 0 "new" refl

-- A whole refresh: the listener and the callback hear of the token, and the promise is given up.
refreshed_once :
    (run initial (
      configuring 9
      ∷ subscribing 4
      ∷ setting (some "old") (some "r")
      ∷ refreshing
      ∷ waking 0 fetch_ok
      ∷ waking 0 (json_ok "new")
      ∷ waking 0 turn
      ∷ [])).refresh_promise
    ≡ none
unfolding run step
refreshed_once = refl
