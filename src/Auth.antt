-- ===== src/Auth.antt =====
-- lib/auth.ts (frontend): the Credentials provider and the jwt and session callbacks of NextAuth.
--
-- zod's test of an address, and base64url, utf8 and JSON.parse for a token's payload, are the
-- parameters `is_email` and `decode`; auth-svc's answers are data. The string of `decode` is what
-- `accessToken.split(".")[1]` gives, its result the `user_id` of the parsed payload if that is an
-- object with a string there, and `none` also stands for a throw, which decodeUserId catches.
pub mod SignIn
pub mod Tokens
use optiflow.Prelude.{
  ℕ, Bool, true, false, ◌&&◌, Option, none, some, List, [], ◌∷◌, ◌++◌, String, is_truthy, js_length,
  split_second, leb, ◌==◌, if◌then◌else◌,
}

pub record User : Type 0 where
  pub id : String
  pub email : String
  pub name : Option String
  pub access_token : Option String
  pub refresh_token : Option String

-- What `credentials` holds under the two names, if that is a string.
pub record Credentials : Type 0 where
  pub email : Option String
  pub password : Option String

pub record AuthSvcTokens : Type 0 where
  pub access_token : String
  pub refresh_token : Option String

-- An answer of fetch: it throws, the status is not 2xx, or the body is read; a body that is no
-- JSON throws as well.
pub data Fetched (A : Type 0) : Type 0 where
  failed not_ok : Fetched A
  body : A → Fetched A

pub record Service : Type 0 where
  pub login : String → String → Fetched AuthSvcTokens
  pub me : String → Fetched String

-- The requests of one sign-in.
pub data Call : Type 0 where
  login_call : String → String → Call
  me_call : String → Call

-- authorize throws, or returns a user or null.
pub data Outcome : Type 0 where
  thrown : Outcome
  returned : Option User → Outcome

-- signInSchema.safeParse
unfoldable pub parse_credentials : (String → Bool) → Credentials → Option (String × String)
parse_credentials is_email c = elim c.email [
  | none ↦ none
  | some e ↦ elim c.password [
    | none ↦ none
    | some p ↦ if is_email e && leb 6 (js_length p) then some (e, p) else none
  ]
]

module _ (decode : String → Option String) where
  decode_payload : Option String → Option String
  decode_payload none = none
  decode_payload (some payload) = decode payload

  unfoldable pub decode_user_id : String → Option String
  unfolding decode_payload
  decode_user_id access_token = decode_payload (split_second access_token)

-- fetchName
unfoldable pub fetched_name : Fetched String → Option String
fetched_name (body name) = some name
fetched_name _ = none

module _ (is_email : String → Bool) (decode : String → Option String) (svc : Service) where
  with_user_id : String → AuthSvcTokens → Option String → List Call × Outcome
  unfolding fetched_name
  with_user_id email tokens none = ([], returned none)
  with_user_id email tokens (some user_id) =
      if is_truthy (some user_id)
      then (
        me_call tokens.access_token ∷ [],
        returned (
            some (record {
              id = user_id;
              email = email;
              name = fetched_name (svc.me tokens.access_token);
              access_token = some tokens.access_token;
              refresh_token = tokens.refresh_token;
            })),
      )
      else ([], returned none)

  with_login : String → Fetched AuthSvcTokens → List Call × Outcome
  unfolding with_user_id decode_user_id
  with_login email failed = ([], thrown)
  with_login email not_ok = ([], returned none)
  with_login email (body tokens) =
      with_user_id email tokens (decode_user_id decode tokens.access_token)

  with_parsed : Option (String × String) → List Call × Outcome
  unfolding with_login
  with_parsed none = ([], returned none)
  with_parsed (some (email, password)) =
      let (calls, out) = with_login email (svc.login email password) in
      (login_call email password ∷ calls, out)

  unfoldable pub authorize : Credentials → List Call × Outcome
  unfolding with_parsed parse_credentials
  authorize c = with_parsed (parse_credentials is_email c)

-- The JWT of a session, and `session` as the callback leaves it; a field that is not there is
-- `none`.
pub record Jwt : Type 0 where
  pub id : Option String
  pub name : Option String
  pub access_token : Option String
  pub refresh_token : Option String

pub record Session : Type 0 where
  pub user_id : Option String
  pub user_name : Option String
  pub access_token : Option String
  pub refresh_token : Option String

-- What `update({...})` was called with: each field if it is a string.
pub record SessionUpdate : Type 0 where
  pub access_token : Option String
  pub name : Option String

-- `trigger`, with the session that comes with "update"
pub data Trigger : Type 0 where
  sign_in sign_up other : Trigger
  update : SessionUpdate → Trigger

take_user : Option User → Jwt → Jwt
take_user none t = t
take_user (some u) t = record {
  id = some u.id;
  name = u.name;
  access_token = u.access_token;
  refresh_token = u.refresh_token;
}

abbrev pub given : Option String → Option String → Option String
given none old = old
given (some new) old = some new

take_update : Trigger → Jwt → Jwt
take_update (update s) t = record t {
  access_token = given s.access_token t.access_token;
  name = given s.name t.name;
}
take_update _ t = t

unfoldable pub jwt : Option User → Trigger → Jwt → Jwt
unfolding take_user take_update
jwt user trigger t = take_update trigger (take_user user t)

-- `token.id` counts only if it is not empty
unfoldable pub session : Jwt → Session → Session
session t s = record {
  user_id = if is_truthy t.id then t.id else s.user_id;
  user_name = given t.name s.user_name;
  access_token = given t.access_token s.access_token;
  refresh_token = given t.refresh_token s.refresh_token;
}
