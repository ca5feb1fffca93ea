-- ===== src/Tests/HttpTests.antt =====
-- lib/api/http.ts at concrete inputs.
use optiflow.Prelude.{◌≡◌, refl, true, false, none, some, [], ◌∷◌, String, if◌then◌else◌, ◌==◌}
use optiflow.Http.{
  Config, AxiosError, success, failure, rejected, sent, refreshed, Net, request_interceptor,
  instance_call, retries, normalize,
}
use optiflow.Http.Retry.{IsRetried}

http : Unit {0}
unfolding instance_call request_interceptor retries normalize
http = tt

abbrev refusal : AxiosError
refusal = record {
  has_config = true;
  response = some (record { status = 401; error = some "token expired" });
  message = some "Request failed";
}

-- The first attempt is refused, the second one is answered.
abbrev net : Net String String
net = record {
  token_at = λ k. if k == 0 then some "old" else some "new";
  send = λ k cfg. if k == 0 then failure refusal else success "files";
  refresh_at = λ k. some "new";
}

abbrev listing : Config String
listing = record { payload = "/files/"; authorization = none; retried = false }

abbrev first : Config String
first = record { payload = "/files/"; authorization = some "Bearer old"; retried = false }

abbrev again : Config String
again = record { payload = "/files/"; authorization = some "Bearer new"; retried = true }

-- Without a new token the first refusal is what the caller sees.
not_refreshed :
    instance_call 2 (record (net) { refresh_at = λ k. none }) 0 listing
    ≡ some (
      sent 0 first ∷ refreshed ∷ [],
      rejected (record { status = 401; message = "token expired" }),
    )
unfolding http
not_refreshed = refl

is_retried : IsRetried net 0 first (failure refusal)
is_retried = record {
  error = refusal;
  token = "new";
  refused = refl;
  unauthorized = refl;
  configured = refl;
  first = refl;
  renewed = refl;
}
