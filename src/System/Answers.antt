-- ===== src/System/Answers.antt =====
-- The answers of REST and Connect to a client that configures a device or records a metric: the
-- error middleware of http/error.go around the handlers, over the SQLite repository.
use iot_metrics.Base.{◌≡◌, refl, ◌⊎◌, inl, inr, String, List, []}
use iot_metrics.Device.Handlers.{
  connect_configure_device, connect_record_metric, echo_configure_device, echo_record_metric,
  to_configure_device, to_record_metric,
}
use iot_metrics.Device.Proto
use iot_metrics.Device.Service.{World, configure_device, record_metric}
use iot_metrics.Device.Types.{ConfigureDeviceRequest, RecordMetricRequest}
use iot_metrics.Device.Validation.Laws.{IsConfigurable, IsRecordable}
use iot_metrics.Go.Errors.{
  Error, connect, invalid_argument, internal, as_bad_request, as_echo_http, as_connect,
}
use iot_metrics.Go.Outcome.{Outcome, ok, err, panic, next, return}
use iot_metrics.Http.Response.{
  Response, no_content, json, json_error, Violations, echo_error_middleware,
  connect_error_interceptor, rest_result, connect_result, to_rest_error, to_connect_error,
  rest_error, connect_error,
}
use iot_metrics.Http.Status.{status_text}
use iot_metrics.Sqlite.Repository.{device_repository}
use iot_metrics.Sqlite.Tables.{Db}
use iot_metrics.System.Internal.{IsPlain}
use iot_metrics.System.Responses.{
  IsVerdict, done, refused, failed, record_metric-IsVerdict, configure_device-IsVerdict,
}

-- 201 without a body for a request that satisfies `P`, 400 for one that does not, and 500 for one
-- that does but met another error, of which nothing is told.
abbrev pub IsRestAnswer : {S : Type 0} → Type 0 → Outcome (Response (Unit {0})) × S → Type 0
IsRestAnswer P (ok (no_content n), s) = (n ≡ 201) × P
IsRestAnswer P (ok (json n b), s) = ⊥
IsRestAnswer P (ok (json_error n body), s) =
    ((n ≡ 400) × (body.code ≡ 400) × (¬ P))
    ⊎ ((n ≡ 500) × (body ≡ record { code = 500; text = "Internal Server Error"; details = [] }) × P)
IsRestAnswer P (err e, s) = ⊥
IsRestAnswer P (panic, s) = ⊥

-- A message for a request that satisfies `P`, `invalid_argument` for one that does not, and `internal`
-- for one that does but met another error, of which nothing is told.
abbrev pub IsConnectAnswer : {S : Type 0} → Type 0 → Outcome (Unit {0}) × S → Type 0
IsConnectAnswer P (ok _, s) = P
IsConnectAnswer P (err e, s) =
    (((details : List (String × String)) × (e ≡ connect invalid_argument "bad request" details))
      × (¬ P))
    ⊎ ((e ≡ connect internal "internal server error" []) × P)
IsConnectAnswer P (panic, s) = ⊥

module _ (order : Violations → Violations) where
  pub plain_rest :
      (e : Error)
      → IsPlain e
      → to_rest_error order e ≡ record { code = 500; text = "Internal Server Error"; details = [] }
  unfolding to_rest_error status_text
  plain_rest e h = rw (h.no_echo, h.no_violations, to_rest_error) refl

  pub plain_connect :
      (e : Error)
      → IsPlain e
      → to_connect_error order e ≡ connect internal "internal server error" []
  unfolding to_connect_error
  plain_connect e h = rw (h.no_connect, h.no_violations, to_connect_error) refl

  rest_verdict :
      {S P : Type 0} (x : Outcome (Unit {0}) × S)
      → IsVerdict P x
      → IsRestAnswer P (rest_result order (next x λ _. return (no_content 201)))
  unfolding to_rest_error rest_error as_echo_http as_bad_request
  rest_verdict _ (done s p) = (refl, p)
  rest_verdict _ (refused x xs s n) = inl (refl, refl, n)
  rest_verdict _ (failed e s h p) = rw (plain_rest e h) (inr (refl, refl, p))

  connect_verdict :
      {S P : Type 0} (x : Outcome (Unit {0}) × S)
      → IsVerdict P x
      → IsConnectAnswer P (connect_result order (next x λ _. return tt))
  unfolding to_connect_error connect_error as_connect as_bad_request
  connect_verdict _ (done s p) = p
  connect_verdict _ (refused x xs s n) = inl ((_, refl), n)
  connect_verdict _ (failed e s h p) = inr (plain_connect e h, p)

  -- A REST call that records a metric and whose request binds is answered 201 or 500 if the request is
  -- recordable and 400 if it is not, whatever the database holds and whatever fails; it neither
  -- panics nor returns an error to echo, and the body of a 500 tells nothing of its cause.
  pub record_metric-IsRestAnswer :
      {C : Type 0} (bind : C → Outcome RecordMetricRequest) (c : C) (req : RecordMetricRequest)
      (w : World Db)
      → bind c ≡ ok req
      → IsRestAnswer
          (IsRecordable req)
          (echo_error_middleware order (echo_record_metric device_repository bind) c w)
  unfolding echo_error_middleware echo_record_metric
  record_metric-IsRestAnswer bind c req w bound =
      rw bound
        (rest_verdict (record_metric device_repository req w) (record_metric-IsVerdict req w))

  -- A REST call that configures a device and whose request binds is answered 201 or 500 if the request
  -- is acceptable and 400 if it is not, under the conditions of recording a metric.
  pub configure_device-IsRestAnswer :
      {C : Type 0} (bind : C → Outcome ConfigureDeviceRequest) (c : C)
      (req : ConfigureDeviceRequest) (w : World Db)
      → bind c ≡ ok req
      → IsRestAnswer
          (IsConfigurable req)
          (echo_error_middleware order (echo_configure_device device_repository bind) c w)
  unfolding echo_error_middleware echo_configure_device
  configure_device-IsRestAnswer bind c req w bound =
      rw bound
        (rest_verdict (configure_device device_repository req w) (configure_device-IsVerdict req w))

  -- A Connect call that records a metric succeeds or fails as `internal` if the request is recordable,
  -- and fails as `invalid_argument` if it is not, whatever the database holds and whatever fails; it
  -- does not panic, and an internal error tells nothing of its cause.
  pub record_metric-IsConnectAnswer :
      (msg : Proto.RecordMetricRequest) (w : World Db)
      → IsConnectAnswer
          (IsRecordable (to_record_metric msg))
          (connect_error_interceptor order (connect_record_metric device_repository) msg w)
  unfolding connect_error_interceptor connect_record_metric
  record_metric-IsConnectAnswer msg w =
      connect_verdict (record_metric device_repository (to_record_metric msg) w)
        (record_metric-IsVerdict (to_record_metric msg) w)

  -- A Connect call that configures a device succeeds or fails as `internal` if the request is
  -- acceptable, and fails as `invalid_argument` if it is not, under the conditions of recording.
  pub configure_device-IsConnectAnswer :
      (msg : Proto.ConfigureDeviceRequest) (w : World Db)
      → IsConnectAnswer
          (IsConfigurable (to_configure_device msg))
          (connect_error_interceptor order (connect_configure_device device_repository) msg w)
  unfolding connect_error_interceptor connect_configure_device
  configure_device-IsConnectAnswer msg w =
      connect_verdict (configure_device device_repository (to_configure_device msg) w)
        (configure_device-IsVerdict (to_configure_device msg) w)
