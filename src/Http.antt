-- ===== src/Http.antt =====
-- lib/api/http.ts (frontend): the interceptors that createServiceClient puts around axios.
--
-- axios and the network are the record `Net`: what getAccessToken returns when attempt k is sent,
-- how attempt k is answered, and what refreshAccessToken gives when attempt k has been refused.
-- `instance(original)` sends the same configuration again through the same interceptors, as axios
-- documents; the recursion takes fuel, and `Http/Laws` shows that two rounds are always enough.
pub mod Laws
pub mod Retry
use optiflow.Prelude.{
  ℕ, suc, zero, ◌+◌, Bool, true, false, not, ◌&&◌, Option, none, some, List, [], ◌∷◌, ◌++◌, String,
  truthy, is_truthy, concat, or_else, if◌then◌else◌, ◌==◌,
}

pub record ApiError : Type 0 where
  pub status : ℕ
  pub message : String

-- `InternalAxiosRequestConfig & { _retried?: boolean }`; `payload` is the rest of the request.
pub record Config (R : Type 0) : Type 0 where
  pub payload : R
  pub authorization : Option String
  pub retried : Bool

-- What axios reports of a response outside 2xx: its status, and `data.error` if there is one.
pub record Response : Type 0 where
  pub status : ℕ
  pub error : Option String

-- `AxiosError<{ error?: string }>`
pub record AxiosError : Type 0 where
  pub has_config : Bool
  pub response : Option Response
  pub message : Option String

pub data Reply (D : Type 0) : Type 0 where
  success : D → Reply D
  failure : AxiosError → Reply D

pub data Outcome (D : Type 0) : Type 0 where
  resolved : D → Outcome D
  rejected : ApiError → Outcome D

-- What a call does: attempt k is sent with a configuration, refreshAccessToken is called.
pub data Act (R : Type 0) : Type 0 where
  sent : ℕ → Config R → Act R
  refreshed : Act R

pub record Net (R D : Type 0) : Type 0 where
  pub token_at : ℕ → Option String
  pub send : ℕ → Config R → Reply D
  pub refresh_at : ℕ → Option String

abbrev pub bearer : String → String
bearer token = concat "Bearer " token

abbrev pub response_status : Option Response → Option ℕ
response_status none = none
response_status (some r) = some r.status

abbrev pub response_error : Option Response → Option String
response_error none = none
response_error (some r) = r.error

abbrev pub is_401 : Option ℕ → Bool
is_401 none = false
is_401 (some n) = n == 401

-- The ApiError that the response interceptor rejects with.
unfoldable pub normalize : AxiosError → ApiError
normalize e = record {
  status = or_else (response_status e.response) 0;
  message = or_else (response_error e.response) (or_else e.message "request failed");
}

-- Whether the interceptor refreshes the token and retries.
unfoldable pub retries : Bool → AxiosError → Bool
retries retried e = is_401 (response_status e.response) && (e.has_config && not retried)

module _ {R : Type 0} where
  -- `token` is what getAccessToken returns
  unfoldable pub request_interceptor : Option String → Config R → Config R
  request_interceptor none cfg = cfg
  request_interceptor (some t) cfg =
      if truthy t then record cfg { authorization = some (bearer t) } else cfg

module _ {R D : Type 0} where
  -- `resend` is `instance`, for the retry.
  refuse :
      (Config R → Option (List (Act R) × Outcome D))
      → Option String
      → Config R
      → AxiosError
      → Option (List (Act R) × Outcome D)
  refuse resend none cfg e = some (refreshed ∷ [], rejected (normalize e))
  refuse resend (some t) cfg e =
      elim (resend (record cfg { authorization = some (bearer t); retried = true })) [
        | none ↦ none
        | some (acts, out) ↦ some (refreshed ∷ acts, out)
      ]

  unfoldable pub response_interceptor :
      (Config R → Option (List (Act R) × Outcome D))
      → Option String
      → Config R
      → Reply D
      → Option (List (Act R) × Outcome D)
  unfolding refuse
  response_interceptor resend fresh cfg (success d) = some ([], resolved d)
  response_interceptor resend fresh cfg (failure e) =
      if retries cfg.retried e then refuse resend fresh cfg e else some ([], rejected (normalize e))

  abbrev pub record_act :
      Act R → Option (List (Act R) × Outcome D) → Option (List (Act R) × Outcome D)
  record_act a none = none
  record_act a (some (acts, out)) = some (a ∷ acts, out)

  -- `instance(cfg)` as attempt k; `none` when the fuel has run out.
  unfoldable pub instance_call : ℕ → Net R D → ℕ → Config R → Option (List (Act R) × Outcome D)
  unfolding request_interceptor response_interceptor
  instance_call zero net k cfg = none
  instance_call (suc fuel) net k cfg =
      let out = request_interceptor (net.token_at k) cfg in
      record_act (sent k out) (
        response_interceptor (instance_call fuel net (suc k)) (net.refresh_at k) out
          (net.send k out))
