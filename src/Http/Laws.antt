-- ===== src/Http/Laws.antt =====
-- lib/api/http.ts: a call is sent at most twice, and how its outcome comes about.
use optiflow.Prelude.{
  ℕ, suc, ◌≡◌, refl, Bool, true, false, Option, none, some, List, [], ◌∷◌, String, if◌then◌else◌,
  arith, ◌∙◌,
}
use optiflow.Http.{
  Config, AxiosError, Reply, success, failure, Outcome, resolved, rejected, Act, sent, refreshed,
  Net, bearer, normalize, retries, request_interceptor, response_interceptor, instance_call,
}

module _ {R : Type 0} where
  -- How often a call was sent, and how often it refreshed the token.
  abbrev pub sends : List (Act R) → ℕ
  sends [] = 0
  sends (sent k cfg ∷ acts) = suc (sends acts)
  sends (refreshed ∷ acts) = sends acts

  abbrev pub refreshes : List (Act R) → ℕ
  refreshes [] = 0
  refreshes (sent k cfg ∷ acts) = refreshes acts
  refreshes (refreshed ∷ acts) = suc (refreshes acts)

  -- Whether requests and refreshes of the token take turns, a request being due or not.
  abbrev pub alternates : Bool → List (Act R) → Bool
  alternates due [] = true
  alternates due (sent k cfg ∷ acts) = if due then alternates false acts else false
  alternates due (refreshed ∷ acts) = if due then false else alternates true acts

  request_interceptor-retried :
      (t : Option String) (cfg : Config R) → (request_interceptor t cfg).retried ≡ cfg.retried
  unfolding request_interceptor
  request_interceptor-retried none cfg = refl
  request_interceptor-retried (some t) cfg = ground arith

-- What a reply means when the interceptor does not retry.
abbrev pub outcome_of : {D : Type 0} → Reply D → Outcome D
outcome_of (success d) = resolved d
outcome_of (failure e) = rejected (normalize e)

module _ {R D : Type 0} where
  -- The reply to the last request of a call, `r` if there is none.
  abbrev pub last_reply : Net R D → Reply D → List (Act R) → Reply D
  last_reply net r [] = r
  last_reply net r (sent k cfg ∷ acts) = last_reply net (net.send k cfg) acts
  last_reply net r (refreshed ∷ acts) = last_reply net r acts

  interceptor_retried :
      (resend : Config R → Option (List (Act R) × Outcome D)) (fresh : Option String)
      (cfg : Config R) (r : Reply D)
      → cfg.retried ≡ true
      → response_interceptor resend fresh cfg r ≡ some ([], outcome_of r)
  unfolding response_interceptor retries
  interceptor_retried resend fresh cfg (success d) h = refl
  interceptor_retried resend fresh cfg (failure e) h = ground arith

  -- A request marked `_retried` is sent once.
  retried_lem :
      (net : Net R D) (fuel k : ℕ) (cfg : Config R)
      → cfg.retried ≡ true
      → let out = request_interceptor (net.token_at k) cfg in
        instance_call (suc fuel) net k cfg ≡ some (sent k out ∷ [], outcome_of (net.send k out))
  unfolding instance_call
  retried_lem net fuel k cfg h =
      let out = request_interceptor (net.token_at k) cfg in
      rw (
        interceptor_retried (instance_call fuel net (suc k)) (net.refresh_at k) out (net.send k out)
          (request_interceptor-retried (net.token_at k) cfg ∙ h))

  -- The retry of a configuration that was refused as attempt k, with the refreshed token.
  abbrev pub second_try : Net R D → ℕ → Config R → String → Config R
  second_try net k out t =
      request_interceptor (net.token_at (suc k))
        (record out { authorization = some (bearer t); retried = true })

  -- The course of a call after attempt k, written without recursion.
  abbrev pub after_refusal :
      Net R D → ℕ → Config R → AxiosError → Option String → List (Act R) × Outcome D
  after_refusal net k out e none = (refreshed ∷ [], rejected (normalize e))
  after_refusal net k out e (some t) =
      let again = second_try net k out t in
      (refreshed ∷ sent (suc k) again ∷ [], outcome_of (net.send (suc k) again))

  abbrev pub after_reply : Net R D → ℕ → Config R → Reply D → List (Act R) × Outcome D
  after_reply net k out (success d) = ([], resolved d)
  after_reply net k out (failure e) =
      if retries out.retried e
      then after_refusal net k out e (net.refresh_at k)
      else ([], rejected (normalize e))

  abbrev pub course : Net R D → ℕ → Config R → List (Act R) × Outcome D
  course net k cfg =
      let out = request_interceptor (net.token_at k) cfg in
      let rest = after_reply net k out (net.send k out) in (sent k out ∷ rest.0, rest.1)

  interceptor_lem :
      (net : Net R D) (fuel k : ℕ) (out : Config R) (fresh : Option String) (r : Reply D)
      → fresh ≡ net.refresh_at k
      → response_interceptor (instance_call (suc fuel) net (suc k)) fresh out r
        ≡ some (after_reply net k out r)
  unfolding response_interceptor
  interceptor_lem net fuel k out fresh (success d) h = refl
  interceptor_lem net fuel k out none (failure e) h = ground arith
  interceptor_lem net fuel k out (some t) (failure e) h = ground (
    arith,
    retried_lem net fuel (suc k) (record out { authorization = some (bearer t); retried = true })
        refl,
  )

  -- Two rounds of fuel are enough for every call, whatever the network answers, and more change
  -- nothing: a call is one request, or one request, one refresh and at most one retry, as in
  -- `course`.
  pub instance_call-course :
      (net : Net R D) (fuel k : ℕ) (cfg : Config R)
      → instance_call (suc (suc fuel)) net k cfg ≡ some (course net k cfg)
  unfolding instance_call
  instance_call-course net fuel k cfg =
      let out = request_interceptor (net.token_at k) cfg in
      rw (interceptor_lem net fuel k out (net.refresh_at k) (net.send k out) refl)
