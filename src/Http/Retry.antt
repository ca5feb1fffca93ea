-- ===== src/Http/Retry.antt =====
-- lib/api/http.ts: when a request is sent a second time, and what it carries then.
use optiflow.Prelude.{
  ℕ, suc, ◌≡◌, refl, sym, ap, ◌∙◌, Bool, true, false, Option, none, some, List, [], ◌∷◌, String,
  truthy, if◌then◌else◌, arith, Bool-cases, inl, inr,
}
use optiflow.Http.{
  Config, AxiosError, Reply, success, failure, Outcome, Act, sent, refreshed, Net, bearer, retries,
  response_status, request_interceptor, instance_call,
}
use optiflow.Http.Laws.{
  outcome_of, sends, second_try, after_reply, after_refusal, instance_call-course,
}

-- The current token unless it is null or empty, and then the given one.
abbrev pub in_force : Option String → String → String
in_force none t = t
in_force (some u) t = if truthy u then u else t

request_interceptor-parts :
    {R : Type 0} (now : Option String) (t : String) (cfg : Config R)
    → cfg.authorization ≡ some (bearer t)
    → ((request_interceptor now cfg).payload ≡ cfg.payload)
      × ((request_interceptor now cfg).retried ≡ cfg.retried)
      × ((request_interceptor now cfg).authorization ≡ some (bearer (in_force now t)))
unfolding request_interceptor
request_interceptor-parts none t cfg h = (refl, refl, h)
request_interceptor-parts (some u) t cfg h = ground arith

request_interceptor-payload :
    {R : Type 0} (now : Option String) (cfg : Config R)
    → (request_interceptor now cfg).payload ≡ cfg.payload
unfolding request_interceptor
request_interceptor-payload none cfg = refl
request_interceptor-payload (some u) cfg = ground arith

module _ {R D : Type 0} (net : Net R D) (k : ℕ) where
  -- The reply is a 401 to a first attempt whose configuration axios hands back, and the refresh
  -- gave the token `t`.
  pub record IsRetried (out : Config R) (r : Reply D) : Type 0 where
    pub error : AxiosError
    pub token : String
    pub refused : r ≡ failure error
    pub unauthorized : response_status error.response ≡ some 401
    pub configured : error.has_config ≡ true
    pub first : out.retried ≡ false
    pub renewed : net.refresh_at k ≡ some token

  retries_parts :
      (b : Bool) (e : AxiosError)
      → retries b e ≡ true
      → (response_status e.response ≡ some 401) × (e.has_config ≡ true) × (b ≡ false)
  unfolding retries
  retries_parts b e h = ground arith

  after_refusal-IsRetried :
      (out : Config R) (e : AxiosError) (fresh : Option String)
      → retries out.retried e ≡ true
      → fresh ≡ net.refresh_at k
      → sends (after_refusal net k out e fresh).0 ≡ 1
      → IsRetried out (failure e)
  after_refusal-IsRetried out e none h f c = absurd (omega arith)
  after_refusal-IsRetried out e (some t) h f c =
      let (u, q, b) = retries_parts out.retried e h in
      record {
        error = e;
        token = t;
        refused = refl;
        unauthorized = u;
        configured = q;
        first = b;
        renewed = sym f;
      }

  after_reply-IsRetried :
      (out : Config R) (r : Reply D) → sends (after_reply net k out r).0 ≡ 1 → IsRetried out r
  after_reply-IsRetried out (success d) c = absurd (omega arith)
  after_reply-IsRetried out (failure e) c = elim (Bool-cases (retries out.retried e)) [
    | inl y ↦ after_refusal-IsRetried out e (net.refresh_at k) y refl (rw y at c)
    | inr n ↦ absurd (ground arith)
  ]

  -- A call that sent two requests was answered 401 the first time and then got a new token.
  pub two_sends-IsRetried :
      (fuel : ℕ) (cfg : Config R) (acts : List (Act R)) (o : Outcome D)
      → instance_call (suc (suc fuel)) net k cfg ≡ some (acts, o)
      → sends acts ≡ 2
      → let out = request_interceptor (net.token_at k) cfg in IsRetried out (net.send k out)
  two_sends-IsRetried fuel cfg acts o h two =
      let out = request_interceptor (net.token_at k) cfg in
      after_reply-IsRetried out (net.send k out)
        (ground (arith, instance_call-course net fuel k cfg))

  after_reply-second :
      (out : Config R) (r : Reply D) (c : IsRetried out r)
      → after_reply net k out r ≡ (
        refreshed ∷ sent (suc k) (second_try net k out c.token) ∷ [],
        outcome_of (net.send (suc k) (second_try net k out c.token)),
      )
  unfolding retries
  after_reply-second out r c =
      rw c.refused (ground (arith, c.unauthorized, c.configured, c.first, c.renewed))

  -- If the first reply is a 401 to a request that was not marked and has its config, and the
  -- refresh gives a token (IsRetried), the call makes exactly two requests with the refresh in
  -- between: the second has the same payload, is marked `_retried`, and carries the token in force
  -- by then, or the refreshed one if none is in force.
  pub IsRetried-two_sends :
      (fuel : ℕ) (cfg : Config R)
      (c : IsRetried
        (request_interceptor (net.token_at k) cfg)
        (net.send k (request_interceptor (net.token_at k) cfg)))
      → (o : Outcome D) × (again : Config R) × (instance_call (suc (suc fuel)) net k cfg
          ≡ some (
            sent k (request_interceptor (net.token_at k) cfg) ∷ refreshed ∷ sent (suc k) again ∷ [],
            o,
          ))
        × (again.payload ≡ cfg.payload)
        × (again.retried ≡ true)
        × (again.authorization ≡ some (bearer (in_force (net.token_at (suc k)) c.token)))
  IsRetried-two_sends fuel cfg c =
      let out = request_interceptor (net.token_at k) cfg in
      let again = second_try net k out c.token in
      let parts =
        request_interceptor-parts (net.token_at (suc k)) c.token
          (record out { authorization = some (bearer c.token); retried = true }) refl in
      (
        outcome_of (net.send (suc k) again),
        again,
        instance_call-course net fuel k cfg
            ∙ ap (λ (q : List (Act R) × Outcome D). some (sent k out ∷ q.0, q.1))
                (after_reply-second out (net.send k out) c),
        parts.0 ∙ request_interceptor-payload (net.token_at k) cfg,
        parts.1,
        parts.2,
      )
