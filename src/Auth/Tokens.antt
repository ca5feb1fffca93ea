-- ===== src/Auth/Tokens.antt =====
-- lib/auth.ts: what the JWT and the session carry after a sign-in and any number of updates.
use optiflow.Prelude.{◌≡◌, refl, Option, none, some, List, [], ◌∷◌, String, is_truthy, true, arith}
use optiflow.Auth.{User, Jwt, Session, SessionUpdate, sign_in, update, given, jwt, session}

-- `update(...)` called once for each entry, the first one first.
abbrev pub updated : Jwt → List SessionUpdate → Jwt
updated t [] = t
updated t (u ∷ us) = updated (jwt none (update u) t) us

-- The last text that updates give for a field, or the old one.
abbrev pub last_token : Option String → List SessionUpdate → Option String
last_token old [] = old
last_token old (u ∷ us) = last_token (given u.access_token old) us

abbrev pub last_name : Option String → List SessionUpdate → Option String
last_name old [] = old
last_name old (u ∷ us) = last_name (given u.name old) us

updated-fields :
    (t : Jwt) (us : List SessionUpdate)
    → ((updated t us).id ≡ t.id)
      × ((updated t us).refresh_token ≡ t.refresh_token)
      × ((updated t us).access_token ≡ last_token t.access_token us)
      × ((updated t us).name ≡ last_name t.name us)
unfolding jwt
updated-fields t [] = (refl, refl, refl, refl)
updated-fields t (u ∷ us) = updated-fields (jwt none (update u) t) us

-- After a sign-in and any updates, on top of any earlier JWT and for any session object that had
-- no tokens: the session names the user that signed in, with that user's refresh token, and the
-- access token and the name are the last ones that an update gave, or the user's own.
pub session-sign_in :
    (u : User) (old : Jwt) (us : List SessionUpdate) (s : Session)
    → is_truthy (some u.id) ≡ true
    → s.refresh_token ≡ none
    → s.access_token ≡ none
    → let t = updated (jwt (some u) sign_in old) us in
      ((session t s).user_id ≡ some u.id)
      × ((session t s).refresh_token ≡ u.refresh_token)
      × ((session t s).access_token ≡ last_token u.access_token us)
      × ((session t s).user_name ≡ given (last_name u.name us) s.user_name)
unfolding session jwt
session-sign_in u old us s id r a = ground (arith, updated-fields (jwt (some u) sign_in old) us)
