-- ===== src/Http/RateLimit.antt =====
-- http/rate_limit.go: the middleware and the interceptor that wait for a rate limiter. A request is
-- whatever the key getter and the address getter read; the limiter changes a state of its own.
use iot_metrics.Base.{String, Option, none, some, [], if◌then◌else◌}
use iot_metrics.Go.Errors.{connect, is_canceled, canceled_code, resource_exhausted}
use iot_metrics.Go.Outcome.{Outcome, ok, err, panic, Call}
use iot_metrics.Http.Response.{Response, no_content}
use iot_metrics.Http.Status.{status_request_timeout, status_too_many_requests}

-- The key that a getter finds, or else the peer's address.
abbrev pub key_or : Option String → String → String
key_or none address = address
key_or (some key) address = key

abbrev pub after_wait_echo :
    {S B : Type 0} → Outcome (Unit {0}) × S → Call S (Response B) → Outcome (Response B) × S
after_wait_echo (ok _, s) handler = handler s
after_wait_echo (err e, s) handler =
    if is_canceled e
    then (ok (no_content status_request_timeout), s)
    else (ok (no_content status_too_many_requests), s)
after_wait_echo (panic, s) handler = (panic, s)

abbrev pub after_wait_connect : {S B : Type 0} → Outcome (Unit {0}) × S → Call S B → Outcome B × S
after_wait_connect (ok _, s) handler = handler s
after_wait_connect (err e, s) handler =
    if is_canceled e
    then (err (connect canceled_code "canceled" []), s)
    else (err (connect resource_exhausted "resource exhausted" []), s)
after_wait_connect (panic, s) handler = (panic, s)

module _ {S C : Type 0} (wait : String → Call S (Unit {0})) where
  -- `NewEchoRateLimiterMiddleware`
  unfoldable pub echo_rate_limiter_middleware :
      {B : Type 0}
      → (C → Option String)
      → (C → String)
      → (C → Call S (Response B))
      → C
      → Call S (Response B)
  echo_rate_limiter_middleware key_getter remote_addr handler c s =
      after_wait_echo (wait (key_or (key_getter c) (remote_addr c)) s) (handler c)

  -- `NewConnectRateLimitInterceptor`
  unfoldable pub connect_rate_limit_interceptor :
      {B : Type 0} → (C → Option String) → (C → String) → (C → Call S B) → C → Call S B
  connect_rate_limit_interceptor key_getter peer_addr handler c s =
      after_wait_connect (wait (key_or (key_getter c) (peer_addr c)) s) (handler c)
