-- ===== src/System/Stack.antt =====
-- What a client that records a metric is answered by the whole stack of main.go, over the SQLite
-- repository and behind a rate limiter.
use iot_metrics.Base.{
  ◌≡◌, refl, ◌≢◌, inl, inr, String, List, ℤ, [], Bool-cases, Option, some, ◌∙◌, if◌then◌else◌,
}
use iot_metrics.Device.Handlers.{connect_record_metric, echo_record_metric, to_record_metric}
use iot_metrics.Device.Proto
use iot_metrics.Device.Service.{World}
use iot_metrics.Device.Types.{RecordMetricRequest}
use iot_metrics.Device.Validation.Laws.{IsRecordable}
use iot_metrics.Go.Errors.{
  Error, Code, connect, internal, canceled_code, resource_exhausted, is_canceled, as_connect,
}
use iot_metrics.Go.Outcome.{Outcome, ok, err, panic, Call}
use iot_metrics.Http.Log.{Clock}
use iot_metrics.Http.RateLimit.{
  echo_rate_limiter_middleware, connect_rate_limit_interceptor, key_or, after_wait_echo,
  after_wait_connect,
}
use iot_metrics.Http.Response.{
  Response, no_content, json, json_error, Violations, echo_error_middleware,
  connect_error_interceptor, rest_result, connect_result, to_connect_error,
}
use iot_metrics.Log.{Logger, Line, level_info}
use iot_metrics.Main.Stacks.{
  Served, RequestLogger, WithRecover, rest_stack, connect_stack, limited_echo, limited_connect,
  on_service,
}
use iot_metrics.Main.Stacks.Laws.{
  IsRequestLogger, IsWithRecover, RecoversAs, rest_stack-AnswersAs, connect_stack-RecoversAs,
}
use iot_metrics.Sqlite.Repository.{device_repository}
use iot_metrics.Sqlite.Tables.{Db}
use iot_metrics.System.Answers.{
  IsRestAnswer, IsConnectAnswer, record_metric-IsRestAnswer, record_metric-IsConnectAnswer,
}

-- What the rate limiter's answer makes of a REST call, over the service's state `s`. Where the wait fails the
-- call is refused, with 408 if it was canceled and 429 otherwise, and the service is not called; where it
-- succeeds the service answers. The rate limiter is left as the wait leaves it.
abbrev pub WaitedRest :
    {M S : Type 0}
    → Type 0
    → S
    → Outcome (Unit {0}) × M
    → Outcome (Response (Unit {0})) × (M × S)
    → Type 0
WaitedRest P s (ok _, m) x = IsRestAnswer P x × (x.1.0 ≡ m)
WaitedRest P s (err e, m) x =
    (x.0 ≡ ok (no_content (if is_canceled e then 408 else 429))) × (x.1 ≡ (m, s))
WaitedRest P s (panic, m) x = (x.0 ≡ panic) × (x.1 ≡ (m, s))

-- The error of a Connect call whose wait failed.
abbrev pub refusal : Error → Error
refusal e =
    if is_canceled e
    then connect canceled_code "canceled" []
    else connect resource_exhausted "resource exhausted" []

-- The same for a Connect call, as it answers behind the recover interceptor.
abbrev pub WaitedConnect :
    {M S : Type 0} → Type 0 → S → Outcome (Unit {0}) × M → Outcome (Unit {0}) × (M × S) → Type 0
WaitedConnect P s (ok _, m) x = IsConnectAnswer P x × (x.1.0 ≡ m)
WaitedConnect P s (err e, m) x = (x.0 ≡ err (refusal e)) × (x.1 ≡ (m, s))
WaitedConnect P s (panic, m) x = (x.0 ≡ err (connect internal "internal Error" [])) × (x.1 ≡ (m, s))

-- The same before a panic is recovered from.
abbrev BareConnect :
    {M S : Type 0} → Type 0 → S → Outcome (Unit {0}) × M → Outcome (Unit {0}) × (M × S) → Type 0
BareConnect P s (ok _, m) x = IsConnectAnswer P x × (x.1.0 ≡ m)
BareConnect P s (err e, m) x = (x.0 ≡ err (refusal e)) × (x.1 ≡ (m, s))
BareConnect P s (panic, m) x = (x.0 ≡ panic) × (x.1 ≡ (m, s))

module _ (order : Violations → Violations) {M C : Type 0} (wait : String → Call M (Unit {0}))
    (key_getter : C → Option String) (address : C → String) where
  -- A service's answer, beside the state of the rate limiter.
  rest_beside :
      (P : Type 0) (m : M) (y : Outcome (Response (Unit {0})) × World Db)
      → IsRestAnswer P (rest_result order y)
      → IsRestAnswer {S = M × World Db} P (rest_result order (y.0, (m, y.1)))
        × ((rest_result order {S = M × World Db} (y.0, (m, y.1))).1.0 ≡ m)
  rest_beside P m (ok (no_content n), v) a = (a, refl)
  rest_beside P m (ok (json n b), v) a = (a, refl)
  rest_beside P m (ok (json_error n e), v) a = (a, refl)
  rest_beside P m (err e, v) a = (a, refl)
  rest_beside P m (panic, v) a = (a, refl)

  rest_waited :
      (P : Type 0) (handler : C → Call (World Db) (Response (Unit {0}))) (c : C) (w : World Db)
      (x : Outcome (Unit {0}) × M)
      → IsRestAnswer P (echo_error_middleware order handler c w)
      → WaitedRest P w x
          (rest_result order (after_wait_echo (x.0, (x.1, w)) (on_service (handler c))))
  unfolding echo_error_middleware
  rest_waited P handler c w (ok _, m) answer = rest_beside P m (handler c w) answer
  rest_waited P handler c w (err e, m) answer = elim (Bool-cases (is_canceled e)) [
    | inl k ↦ rw k (refl, refl)
    | inr k ↦ rw k (refl, refl)
  ]
  rest_waited P handler c w (panic, m) answer = (refl, refl)

  bare_rest :
      (bind : C → Outcome RecordMetricRequest) (c : C) (req : RecordMetricRequest) (m : M)
      (w : World Db)
      → bind c ≡ ok req
      → WaitedRest (IsRecordable req) w (wait (key_or (key_getter c) (address c)) m) (
          echo_error_middleware order
            (limited_echo
              (some wait)
              key_getter
              address
              (echo_record_metric device_repository bind))
            c
            (m, w))
  unfolding limited_echo echo_error_middleware echo_rate_limiter_middleware
  bare_rest bind c req m w bound =
      rest_waited (IsRecordable req) (echo_record_metric device_repository bind) c w
        (wait (key_or (key_getter c) (address c)) m)
        (record_metric-IsRestAnswer order bind c req w bound)

  -- A REST call that records a metric and whose request binds, behind a rate limiter that it waits at under
  -- its key, or under its address where it has none. If the wait fails it is refused, with 408 if the wait
  -- was canceled and 429 otherwise, and nothing that the service holds changes. If the wait succeeds it
  -- is answered 201 or 500 if the request is recordable, and 400 if it is not. If the wait panics so does
  -- the call. The limiter is left as the wait leaves it, and logging requests changes nothing of this.
  pub record_metric-rest_stack :
      (logger : Logger) (method : C → String)
      (request_logger : RequestLogger C (Served M (World Db)) (Response (Unit {0})))
      (bind : C → Outcome RecordMetricRequest) (c : C) (req : RecordMetricRequest)
      (lines : List Line) (m : M) (w : World Db)
      → logger.options.level ≡ level_info
      → IsRequestLogger method request_logger
      → method c ≢ "OPTIONS"
      → bind c ≡ ok req
      → let y =
          rest_stack order logger
            (some wait)
            key_getter
            address
            request_logger
            (echo_record_metric device_repository bind)
            c
            (lines, (m, w)) in
        WaitedRest (IsRecordable req) w (wait (key_or (key_getter c) (address c)) m) (y.0, y.1.1)
  record_metric-rest_stack logger method request_logger bind c req lines m w at_info lawful h
        bound =
      let answers =
        rest_stack-AnswersAs order logger at_info (some wait) key_getter address method
          request_logger (echo_record_metric device_repository bind) c lines (m, w) lawful h in
      rw (answers.0, answers.1) (bare_rest bind c req m w bound)

module _ (order : Violations → Violations) {M : Type 0} (wait : String → Call M (Unit {0}))
    (key_getter : Proto.RecordMetricRequest → Option String)
    (address : Proto.RecordMetricRequest → String) where
  connect_beside :
      (P : Type 0) (m : M) (y : Outcome (Unit {0}) × World Db)
      → IsConnectAnswer P (connect_result order y)
      → IsConnectAnswer {S = M × World Db} P (connect_result order (y.0, (m, y.1)))
        × ((connect_result order {S = M × World Db} (y.0, (m, y.1))).1.0 ≡ m)
  connect_beside P m (ok _, v) a = (a, refl)
  connect_beside P m (err e, v) a = (a, refl)
  connect_beside P m (panic, v) a = (a, refl)

  connect_waited :
      (P : Type 0) (handler : Proto.RecordMetricRequest → Call (World Db) (Unit {0}))
      (c : Proto.RecordMetricRequest) (w : World Db) (x : Outcome (Unit {0}) × M)
      → IsConnectAnswer P (connect_error_interceptor order handler c w)
      → BareConnect P w x
          (connect_result order (after_wait_connect (x.0, (x.1, w)) (on_service (handler c))))
  unfolding connect_error_interceptor to_connect_error as_connect
  connect_waited P handler c w (ok _, m) answer = connect_beside P m (handler c w) answer
  connect_waited P handler c w (err e, m) answer = elim (Bool-cases (is_canceled e)) [
    | inl k ↦ rw k (refl, refl)
    | inr k ↦ rw k (refl, refl)
  ]
  connect_waited P handler c w (panic, m) answer = (refl, refl)

  bare_rpc :
      (msg : Proto.RecordMetricRequest) (m : M) (w : World Db)
      → BareConnect
          (IsRecordable (to_record_metric msg))
          w
          (wait (key_or (key_getter msg) (address msg)) m)
          (connect_error_interceptor order
            (limited_connect
              (some wait)
              key_getter
              address
              (connect_record_metric device_repository))
            msg
            (m, w))
  unfolding limited_connect connect_error_interceptor connect_rate_limit_interceptor
  bare_rpc msg m w =
      connect_waited (IsRecordable (to_record_metric msg)) (connect_record_metric device_repository)
        msg w (wait (key_or (key_getter msg) (address msg)) m)
        (record_metric-IsConnectAnswer order msg w)

  recovered_answer :
      (P : Type 0) (w : World Db) (lines : List Line) (o : Outcome (Unit {0}) × M)
      (x : Outcome (Unit {0}) × (M × World Db)) (y : Outcome (Unit {0}) × Served M (World Db))
      → RecoversAs lines x y
      → BareConnect P w o x
      → WaitedConnect P w o (y.0, y.1.1)
  recovered_answer P w lines (ok u, m) (ok a, t) y (e, f, _) answer = rw (e, f) answer
  recovered_answer P w lines (ok u, m) (err a, t) y (e, f, _) answer = rw (e, f) answer
  recovered_answer P w lines (ok u, m) (panic, t) y h (b, _) = elim b [ ]
  recovered_answer P w lines (err x, m) (ok a, t) y h (b, _) = cc
  recovered_answer P w lines (err x, m) (err a, t) y (e, f, _) answer = rw (e, f) answer
  recovered_answer P w lines (err x, m) (panic, t) y h (b, _) = cc
  recovered_answer P w lines (panic, m) (ok a, t) y h (b, _) = cc
  recovered_answer P w lines (panic, m) (err a, t) y h (b, _) = cc
  recovered_answer P w lines (panic, m) (panic, t) y (e, f, _) (_, same) = (e, f ∙ same)

  -- A Connect call that records a metric, behind a rate limiter that it waits at under its key, or under its
  -- address where it has none. If the wait fails it is refused, as `canceled` if the wait was canceled and
  -- as `resource_exhausted` otherwise, and nothing that the service holds changes. If the wait succeeds it
  -- succeeds or fails as `internal` if the request is recordable, and fails as `invalid_argument` if it is
  -- not. If the wait panics the call fails as `internal`. The limiter is left as the wait leaves it.
  pub record_metric-connect_stack :
      (logger : Logger) (code_number : Code → ℤ) (code_name : Code → String)
      (with_recover : WithRecover Proto.RecordMetricRequest (Served M (World Db)) (Unit {0}))
      (procedure : String) (clock : Clock) (msg : Proto.RecordMetricRequest) (lines : List Line)
      (m : M) (w : World Db)
      → logger.options.level ≡ level_info
      → IsWithRecover with_recover
      → let y =
          connect_stack order logger
            (some wait)
            key_getter
            address
            code_number
            code_name
            with_recover
            procedure
            clock
            (connect_record_metric device_repository)
            msg
            (lines, (m, w)) in
        WaitedConnect
          (IsRecordable (to_record_metric msg))
          w
          (wait (key_or (key_getter msg) (address msg)) m)
          (y.0, y.1.1)
  record_metric-connect_stack logger code_number code_name with_recover procedure clock msg lines m
        w at_info lawful =
      recovered_answer (IsRecordable (to_record_metric msg)) w lines
        (wait (key_or (key_getter msg) (address msg)) m) _ _
        (connect_stack-RecoversAs order logger at_info (some wait) key_getter address code_number
          code_name procedure clock with_recover (connect_record_metric device_repository) msg lines
          (m, w) lawful)
        (bare_rpc msg m w)
