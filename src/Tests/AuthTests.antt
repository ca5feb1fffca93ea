-- ===== src/Tests/AuthTests.antt =====
-- lib/auth.ts at concrete inputs.
use optiflow.Prelude.{
  ◌≡◌, refl, Bool, Option, none, some, List, [], ◌∷◌, String, arith, split_second, str_eq,
}
use optiflow.Auth.{
  User, Credentials, body, not_ok, Service, login_call, me_call, returned, parse_credentials,
  decode_user_id, authorize, Jwt, Session, SessionUpdate, jwt, session,
}
use optiflow.Auth.SignIn.{IsAdmitted, authorize-IsAdmitted}

auth : Unit {0}
unfolding authorize parse_credentials decode_user_id split_second jwt session
auth = tt

-- `is_email` and `decode` of the tests, and an auth-svc that knows one user.
abbrev mail : String → Bool
mail s = str_eq s "a@b.c"

abbrev claims : String → Option String
claims s = some s

abbrev svc : Service
svc = record {
  login = λ email password. body (record { access_token = "h.u1.s"; refresh_token = some "r" });
  me = λ token. not_ok;
}

abbrev ann : User
ann = record {
  id = "u1";
  email = "a@b.c";
  name = none;
  access_token = some "h.u1.s";
  refresh_token = some "r";
}

abbrev typed : Credentials
typed = record { email = some "a@b.c"; password = some "secret" }

admitted :
    authorize mail claims svc typed
    ≡ (login_call "a@b.c" "secret" ∷ me_call "h.u1.s" ∷ [], returned (some ann))
unfolding auth
admitted = refl

too_short :
    authorize mail claims svc (record typed { password = some "short" }) ≡ ([], returned none)
unfolding auth
too_short = refl

authorize-IsAdmitted_example : IsAdmitted mail claims svc typed ann
unfolding auth
authorize-IsAdmitted_example = authorize-IsAdmitted mail claims svc typed ann refl

why : IsAdmitted mail claims svc typed ann
unfolding auth
why = record {
  password = "secret";
  tokens = record { access_token = "h.u1.s"; refresh_token = some "r" };
  given_email = refl;
  given_password = refl;
  valid_email = refl;
  valid_password = omega arith;
  accepted = refl;
  identified = refl;
  nonempty = refl;
  holds_access = refl;
  holds_refresh = refl;
  named = refl;
}

abbrev no_jwt : Jwt
no_jwt = record { id = none; name = none; access_token = none; refresh_token = none }

abbrev no_session : Session
no_session = record { user_id = none; user_name = none; access_token = none; refresh_token = none }

abbrev refreshes : List SessionUpdate
refreshes =
    record { access_token = some "t2"; name = none }
    ∷ record { access_token = none; name = some "Ann" }
    ∷ []
