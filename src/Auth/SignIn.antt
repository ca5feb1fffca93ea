-- ===== src/Auth/SignIn.antt =====
-- lib/auth.ts: whom authorize lets in, and what it asks auth-svc.
use optiflow.Prelude.{
  ◌≡◌, refl, ◌≤◌, Bool, true, Option, none, some, [], ◌∷◌, String, is_truthy, js_length, arith,
}
use optiflow.Auth.{
  User, Credentials, AuthSvcTokens, Fetched, failed, not_ok, body, Service, login_call, me_call,
  returned, parse_credentials, decode_user_id, fetched_name, with_user_id, with_login, with_parsed,
  authorize,
}

module _ (is_email : String → Bool) (decode : String → Option String) (svc : Service) where
  -- Why a user was let in with these credentials.
  pub record IsAdmitted (c : Credentials) (u : User) : Type 0 where
    pub password : String
    pub tokens : AuthSvcTokens
    pub given_email : c.email ≡ some u.email
    pub given_password : c.password ≡ some password
    pub valid_email : is_email u.email ≡ true
    pub valid_password : 6 ≤ js_length password
    pub accepted : svc.login u.email password ≡ body tokens
    pub identified : decode_user_id decode tokens.access_token ≡ some u.id
    pub nonempty : is_truthy (some u.id) ≡ true
    pub holds_access : u.access_token ≡ some tokens.access_token
    pub holds_refresh : u.refresh_token ≡ tokens.refresh_token
    pub named : u.name ≡ fetched_name (svc.me tokens.access_token)

  parse_credentials-parts :
      (c : Credentials) (e p : String)
      → parse_credentials is_email c ≡ some (e, p)
      → (c.email ≡ some e) × (c.password ≡ some p) × (is_email e ≡ true) × (6 ≤ js_length p)
  unfolding parse_credentials
  parse_credentials-parts c e p h = ground arith

  with_user_id-parts :
      (email : String) (t : AuthSvcTokens) (id : Option String) (u : User)
      → (with_user_id is_email decode svc email t id).1 ≡ returned (some u)
      → (id ≡ some u.id)
        × (is_truthy (some u.id) ≡ true)
        × (u.email ≡ email)
        × (u.access_token ≡ some t.access_token)
        × (u.refresh_token ≡ t.refresh_token)
        × (u.name ≡ fetched_name (svc.me t.access_token))
  unfolding with_user_id
  with_user_id-parts email t none u h = cc
  with_user_id-parts email t (some id) u h = ground arith

  with_login-parts :
      (email : String) (a : Fetched AuthSvcTokens) (u : User)
      → (with_login is_email decode svc email a).1 ≡ returned (some u)
      → (t : AuthSvcTokens) × (a ≡ body t)
        × ((with_user_id is_email decode svc email t (decode_user_id decode t.access_token)).1
            ≡ returned (some u))
  unfolding with_login
  with_login-parts email failed u h = cc
  with_login-parts email not_ok u h = cc
  with_login-parts email (body t) u h = (t, refl, h)

  with_parsed-IsAdmitted :
      (c : Credentials) (parsed : Option (String × String)) (u : User)
      → parse_credentials is_email c ≡ parsed
      → (with_parsed is_email decode svc parsed).1 ≡ returned (some u)
      → IsAdmitted c u
  unfolding with_parsed
  with_parsed-IsAdmitted c none u e h = cc
  with_parsed-IsAdmitted c (some (email, password)) u e h =
      let (ce, cp, ve, vp) = parse_credentials-parts c email password e in
      let (t, accepted, h') = with_login-parts email (svc.login email password) u h in
      let (id, truthy, same, access, refresh, name) =
        with_user_id-parts email t (decode_user_id decode t.access_token) u h' in
      record {
        password = password;
        tokens = t;
        given_email = ground arith;
        given_password = cp;
        valid_email = ground arith;
        valid_password = vp;
        accepted = ground arith;
        identified = id;
        nonempty = truthy;
        holds_access = access;
        holds_refresh = refresh;
        named = name;
      }

  -- authorize lets a user in only if the credentials pass the schema, auth-svc accepts exactly
  -- them, and its access token names a user id that is not empty; the user then has that id, that
  -- address and those tokens.
  pub authorize-IsAdmitted :
      (c : Credentials) (u : User)
      → (authorize is_email decode svc c).1 ≡ returned (some u)
      → IsAdmitted c u
  unfolding authorize
  authorize-IsAdmitted c u h = with_parsed-IsAdmitted c (parse_credentials is_email c) u refl h

  admitted_parsed :
      (c : Credentials) (u : User) (a : IsAdmitted c u)
      → parse_credentials is_email c ≡ some (u.email, a.password)
  unfolding parse_credentials
  admitted_parsed c u a =
      ground (arith, a.given_email, a.given_password, a.valid_email, a.valid_password)

  admitted_user :
      (c : Credentials) (u : User) (a : IsAdmitted c u)
      → ◌≡◌ {A = User}
          (record {
            id = u.id;
            email = u.email;
            name = fetched_name (svc.me a.tokens.access_token);
            access_token = some a.tokens.access_token;
            refresh_token = a.tokens.refresh_token;
          })
          u
  admitted_user c u a = ground (arith, a.named, a.holds_access, a.holds_refresh)

  -- If the credentials pass the schema, auth-svc accepts them and its access token names a user id
  -- that is not empty (IsAdmitted), the user is let in, after one login and one request for the
  -- name, whether or not the latter succeeds.
  pub IsAdmitted-authorize :
      (c : Credentials) (u : User) (a : IsAdmitted c u)
      → authorize is_email decode svc c
        ≡ (login_call u.email a.password ∷ me_call a.tokens.access_token ∷ [], returned (some u))
  unfolding authorize
  IsAdmitted-authorize c u a =
      rw (admitted_parsed c u a)
        (ground (arith, a.accepted, a.identified, a.nonempty, admitted_user c u a))

  -- Credentials that the schema refuses send nothing and sign nobody in.
  pub authorize-refused :
      (c : Credentials)
      → parse_credentials is_email c ≡ none
      → authorize is_email decode svc c ≡ ([], returned none)
  unfolding authorize
  authorize-refused c h = rw h refl
