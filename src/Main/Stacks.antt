-- ===== src/Main/Stacks.antt =====
-- main.go: the middleware around the handlers. Package echo and package connect call the first of the
-- middleware first. A request changes the lines that are logged, the rate limiter and the service.
pub mod Laws
use iot_metrics.Base.{String, List, Option, none, some, ℤ}
use iot_metrics.Go.Errors.{Error, Code}
use iot_metrics.Go.Outcome.{Call}
use iot_metrics.Http.Log.{Values, Clock, echo_log_middleware, connect_log_interceptor}
use iot_metrics.Http.RateLimit.{echo_rate_limiter_middleware, connect_rate_limit_interceptor}
use iot_metrics.Http.Recover.{connect_recover}
use iot_metrics.Http.Response.{
  Response, Violations, echo_error_middleware, connect_error_interceptor,
}
use iot_metrics.Log.{Logger, Line}

-- A call of the rate limiter, whose state stands beside the service's.
abbrev pub on_limiter : {M S A : Type 0} → Call M A → Call (M × S) A
on_limiter f (m, s) = let (o, m') = f m in (o, (m', s))

-- A call of the service.
abbrev pub on_service : {M S A : Type 0} → Call S A → Call (M × S) A
on_service f (m, s) = let (o, s') = f s in (o, (m, s'))

module _ {M S C B : Type 0} (wait : Option (String → Call M (Unit {0})))
    (key_getter : C → Option String) (address : C → String) where
  -- The rate limiter, if it is configured, in front of a REST handler.
  unfoldable pub limited_echo : (C → Call S (Response B)) → C → Call (M × S) (Response B)
  limited_echo handler c = elim wait [
    | none ↦ on_service (handler c)
    | some w ↦
        echo_rate_limiter_middleware (λ key. on_limiter (w key)) key_getter address
          (λ d. on_service (handler d)) c
  ]

  -- The same in front of a Connect handler.
  unfoldable pub limited_connect : (C → Call S B) → C → Call (M × S) B
  limited_connect handler c = elim wait [
    | none ↦ on_service (handler c)
    | some w ↦
        connect_rate_limit_interceptor (λ key. on_limiter (w key)) key_getter address
          (λ d. on_service (handler d)) c
  ]

-- The lines, the rate limiter and the service.
abbrev pub Served : Type 0 → Type 0 → Type 0
Served M S = List Line × (M × S)

-- `middleware.RequestLoggerWithConfig`, of the function that logs the values of a request.
abbrev pub RequestLogger : Type 0 → Type 0 → Type 0 → Type 0
RequestLogger C X A = (Values → Call X (Unit {0})) → (C → Call X A) → C → Call X A

-- `connect.WithRecover`, of the function that answers a panic.
abbrev pub WithRecover : Type 0 → Type 0 → Type 0 → Type 0
WithRecover C X B = (X → Error × X) → (C → Call X B) → C → Call X B

module _ {M S C B : Type 0} (order : Violations → Violations) (logger : Logger)
    (wait : Option (String → Call M (Unit {0}))) (key_getter : C → Option String)
    (address : C → String) where
  -- The middleware of the REST handlers.
  unfoldable pub rest_stack :
      RequestLogger C (Served M S) (Response B)
      → (C → Call S (Response B))
      → C
      → Call (Served M S) (Response B)
  rest_stack request_logger handler = echo_error_middleware order (
      echo_log_middleware request_logger logger
        λ c. on_service (limited_echo wait key_getter address handler c))

  -- The interceptors of the handler of a Connect procedure, behind the one that recovers.
  unfoldable pub connect_stack :
      (Code → ℤ)
      → (Code → String)
      → WithRecover C (Served M S) B
      → String
      → Clock
      → (C → Call S B)
      → C
      → Call (Served M S) B
  connect_stack code_number code_name with_recover procedure clock handler =
      connect_recover with_recover logger procedure (
        connect_error_interceptor order (
          connect_log_interceptor code_number code_name logger procedure clock
            λ c. on_service (limited_connect wait key_getter address handler c)))
