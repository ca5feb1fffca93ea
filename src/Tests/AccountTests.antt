-- ===== src/Tests/AccountTests.antt =====
-- The handlers of accounts and password resets at concrete tables, with numbers as ids.
use optiflow.Prelude.{
  ℕ, ◌≡◌, ◌≢◌, refl, ap, sym, subst, ◌∙◌, true, false, Option, none, some, List, [], ◌∷◌, String,
  str_eq, str_eq_iff, truthy, if◌then◌else◌, arith, nat_eq,
}
use Prim.Native.Char.{code}
use optiflow.Prelude.{truthy_cons, ◌==◌, string_eq}
use optiflow.Auth.{parse_credentials}
use optiflow.Pages.ResetPassword as Page
use optiflow.Server.Accounts.{
  User, Claims, TokenType, Answer, refused, tokens, no_content, Crypto, first, access, refresh,
  is_access, other, login, require_auth, refresh_token,
}
use optiflow.Server.Accounts.Resets.{
  Accounts, request_password_reset, confirm_password_reset, confirm_with, usable_token,
}
use optiflow.Server.Accounts.SingleUse.{requesting, run, run-single_use}
use optiflow.Server.Accounts.Flow.{confirm_race}
use optiflow.Server.Accounts.Sessions.{login_tokens}
use optiflow.Resetting.{page-login}

-- A hash is the password, and a token is the text of its claims.
abbrev crypto : Crypto ℕ
crypto = record {
  hash = λ salt p. some p;
  verify = str_eq;
  issue = λ user kind. some (if is_access kind then "access" else "refresh");
  parse = λ t.
      if str_eq t "access"
      then some (record { user_id = 1; kind = access })
      else (if str_eq t "refresh" then some (record { user_id = 1; kind = refresh }) else none);
}

abbrev account : User ℕ
account = record {
  id = 1;
  email = "a@b";
  password_hash = "first!";
  name = "A";
  storage_quota_bytes = 5368709120;
}

abbrev accounts : Accounts ℕ
accounts = record { users = account ∷ []; tokens = [] }

-- with a token that has been asked for at 0
abbrev asked : Accounts ℕ
asked = record {
  users = account ∷ [];
  tokens =
      record { id = 5; user_id = 1; token_hash = "t"; expires_at = 1800000000000; used = false }
      ∷ [];
}

abbrev typed : List Page.Action
typed = Page.set_password "secret" ∷ Page.set_confirm_pw "secret" ∷ []

page-login_example :
    ((confirm_password_reset (λ t. t) crypto 7 0 "t" "secret" asked).1 ≡ no_content)
    × (parse_credentials (λ t. true) (record { email = some "a@b"; password = some "secret" })
        ≡ some ("a@b", "secret"))
    × (login crypto "a@b" "secret"
          (confirm_password_reset (λ t. t) crypto 7 0 "t" "secret" asked).0.users
        ≡ tokens "access" (some "refresh"))
unfolding request_password_reset first Page.run Page.act Page.view Page.handle_submit
page-login_example =
    page-login crypto (λ t. t) (λ salt p h k. (str_eq_iff h p).1 (ground (arith, k))) 0 7 0 5 "t"
      "a@b" "secret" "secret" "access" "refresh" account accounts asked 1800000000000 (some "t")
      typed [] (λ t. true) refl refl refl (ground arith) refl refl refl refl

run-single_use_example :
    ((confirm_password_reset
        (λ t. t)
        crypto
        9
        0
        "t"
        "third!"
        (run crypto
          (λ t. t)
          (requesting 8 6 "u" "a@b" ∷ [])
          (confirm_password_reset (λ t. t) crypto 7 0 "t" "secret" asked).0)).0
      ≡ run crypto
          (λ t. t)
          (requesting 8 6 "u" "a@b" ∷ [])
          (confirm_password_reset (λ t. t) crypto 7 0 "t" "secret" asked).0)
    × ((confirm_password_reset
          (λ t. t)
          crypto
          9
          0
          "t"
          "third!"
          (run crypto
            (λ t. t)
            (requesting 8 6 "u" "a@b" ∷ [])
            (confirm_password_reset (λ t. t) crypto 7 0 "t" "secret" asked).0)).1
        ≢ no_content)
unfolding confirm_password_reset
run-single_use_example =
    run-single_use crypto (λ t. t) 7 0 "t" "secret" asked (requesting 8 6 "u" "a@b" ∷ []) 9 0
      "third!" refl

confirm_race_example :
    ((confirm_password_reset
        (λ t. t)
        crypto
        9
        0
        "t"
        "third!"
        (confirm_password_reset (λ t. t) crypto 7 0 "t" "secret" asked).0).1
      ≢ no_content)
    × ((confirm_with
          (usable_token (λ t. t) 9 "t" asked.tokens)
          (crypto.hash 0 "third!")
          (confirm_password_reset (λ t. t) crypto 7 0 "t" "secret" asked).0).1
        ≡ no_content)
unfolding confirm_password_reset
confirm_race_example = confirm_race crypto (λ t. t) 7 0 9 0 "t" "secret" "third!" asked refl refl

-- A token is a letter for its type and the id of its user.
issue_token : String → TokenType → Option String
issue_token user access = some (String.◌∷◌ "a" user)
issue_token user refresh = some (String.◌∷◌ "r" user)
issue_token user (other kind) = none

parse_token : String → Option (Claims String)
parse_token String.[] = none
parse_token (String.◌∷◌ c user) =
    some (record { user_id = user; kind = if code c == b'a' then access else refresh })

abbrev letters : Crypto String
letters = record {
  hash = λ salt p. some p;
  verify = str_eq;
  issue = issue_token;
  parse = parse_token;
}

abbrev named : User String
named = record {
  id = "1";
  email = "a@b";
  password_hash = "secret";
  name = "A";
  storage_quota_bytes = 5368709120;
}

parse-issue :
    (user : String) (kind : TokenType) (t : String)
    → letters.issue user kind ≡ some t
    → (truthy t ≡ true) × (letters.parse t ≡ some (record { user_id = user; kind = kind }))
unfolding issue_token parse_token
parse-issue user access t h =
    let same : String.◌∷◌ "a" user ≡ t = ground (arith, h) in
    (ap truthy (sym same) ∙ truthy_cons "a" user, ap letters.parse (sym same))
parse-issue user refresh t h =
    let same : String.◌∷◌ "r" user ≡ t = ground (arith, h) in
    (ap truthy (sym same) ∙ truthy_cons "r" user, ap letters.parse (sym same))
parse-issue user (other kind) t h = absurd (ground (arith, h))

login_tokens_example :
    (u : User String) × (first (λ w. str_eq w.email "a@b") (named ∷ []) ≡ some u)
    × (str_eq u.password_hash "secret" ≡ true)
    × ((next : String → Answer String) → require_auth letters (some "a1") next ≡ next u.id)
    × (refresh_token letters "a1" (named ∷ []) ≡ refused 401 "invalid refresh token")
    × ((next : String → Answer String)
        → require_auth letters (some "r1") next ≡ refused 401 "invalid or expired token")
    × ("1" ≡ u.id)
    × (refresh_token letters "r1" (named ∷ []) ≡ tokens "a1" none)
unfolding login first issue_token
login_tokens_example =
    login_tokens letters letters "a@b" "secret" "a1" "r1" "a1" (named ∷ []) named parse-issue refl
      (λ u found.
        let same : named ≡ u = ground (arith, found) in
        (subst (λ w. first (λ v. str_eq v.id w.id) (named ∷ []) ≡ some named) same refl, refl))
