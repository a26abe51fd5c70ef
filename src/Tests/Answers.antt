-- ===== src/Tests/Answers.antt =====
-- The handlers and the answers of both protocols at concrete inputs.
use iot_metrics.Base.{
  ◌≡◌, refl, subst, List, [], ◌∷◌, Option, if◌then◌else◌, leb_ℤ, Bool-cases, inl, inr, none, some,
  pos, false,
}
use iot_metrics.Device.Handlers.{
  connect_record_metric, echo_record_metric, connect_get_device_alerts, echo_get_device_alerts,
  to_record_metric, to_get_device_alerts,
}
use iot_metrics.Device.Handlers.Laws
use iot_metrics.Device.Handlers.Laws.{AlertsAgree}
use iot_metrics.Device.Proto
use iot_metrics.Device.Types.{GetDeviceAlertsResponse, Alert}
use iot_metrics.Device.Validation.Laws.{IsRecordable, IsQueryable}
use iot_metrics.Go.Errors.{Error, other, as_bad_request, as_echo_http, as_connect}
use iot_metrics.System.Internal.{IsPlain}
use iot_metrics.Go.Float64.{finite}
use iot_metrics.Go.Outcome.{ok}
use iot_metrics.Http.Response.{echo_error_middleware, connect_error_interceptor}
use iot_metrics.Sqlite.Repository.{device_repository}
use iot_metrics.System.Answers.{
  IsRestAnswer, IsConnectAnswer, record_metric-IsRestAnswer, record_metric-IsConnectAnswer,
}
use iot_metrics.System.AlertsAnswers.{IsAlertsAnswer, IsDecodable, get_device_alerts-IsAlertsAnswer}
use iot_metrics.Tests.Codec.{small_json, small_json-IsTokenJson, small_json-IsPlain}
use iot_metrics.Tests.Samples.{sample_query, untimed_text, sample_world, sample_metric, at_second}

abbrev metric_message : Proto.RecordMetricRequest
metric_message = record {
  device_id = "d";
  temperature = finite false 1;
  battery = pos 50;
  timestamp = some (at_second 9);
}

abbrev config_message : Proto.ConfigureDeviceRequest
config_message = record {
  device_id = "d";
  temperature_threshold = finite false 1;
  battery_threshold = pos 20;
}

abbrev alerts_message : Proto.GetDeviceAlertsRequest
alerts_message = record { device_id = "d"; timeframe = none; page_size = pos 1; page_token = "" }

record_metric-IsRestAnswer_example : IsRestAnswer (IsRecordable sample_metric) (
    echo_error_middleware
      (λ v. v)
      (echo_record_metric device_repository ok)
      sample_metric
      sample_world)
record_metric-IsRestAnswer_example =
    record_metric-IsRestAnswer (λ v. v) ok sample_metric sample_metric sample_world refl

record_metric-IsConnectAnswer_example :
    IsConnectAnswer (IsRecordable (to_record_metric metric_message)) (
      connect_error_interceptor
        (λ v. v)
        (connect_record_metric device_repository)
        metric_message
        sample_world)
record_metric-IsConnectAnswer_example =
    record_metric-IsConnectAnswer (λ v. v) metric_message sample_world

-- Package encoding/json refuses a time past the year 9999.
late_alert : List Alert → Option Error
late_alert [] = none
late_alert (a ∷ alerts) =
    if leb_ℤ (pos 253402300800) a.time.secs
    then some (other "json: error calling MarshalJSON")
    else late_alert alerts

some_eq : {A : Type 0} {x y : A} → ◌≡◌ {A = Option A} (some x) (some y) → x ≡ y
some_eq e = cc

late_alert-IsPlain : (alerts : List Alert) (e : Error) → late_alert alerts ≡ some e → IsPlain e
unfolding late_alert as_bad_request as_echo_http as_connect
late_alert-IsPlain [] e h = cc
late_alert-IsPlain (a ∷ alerts) e h = elim (Bool-cases (leb_ℤ (pos 253402300800) a.time.secs)) [
  | inl late ↦
      subst IsPlain (some_eq (rw late at h))
        (record { no_violations = refl; no_echo = refl; no_connect = refl })
  | inr fine ↦ late_alert-IsPlain alerts e (rw fine at h)
]

abbrev encoding_error : GetDeviceAlertsResponse → Option Error
encoding_error page = late_alert page.alerts

alerts_message-IsSameQuery : Laws.IsSameQuery alerts_message (to_get_device_alerts alerts_message)
alerts_message-IsSameQuery = record {
  device = refl;
  start = refl;
  end = refl;
  page_size = refl;
  page_token = refl;
}

get_device_alerts-Agree_example :
    AlertsAgree encoding_error
      (connect_get_device_alerts device_repository small_json alerts_message sample_world)
      (echo_get_device_alerts device_repository small_json encoding_error ok
        (to_get_device_alerts alerts_message)
        sample_world)
get_device_alerts-Agree_example =
    Laws.get_device_alerts-Agree device_repository small_json encoding_error ok
      (to_get_device_alerts alerts_message) (to_get_device_alerts alerts_message) alerts_message
      sample_world refl alerts_message-IsSameQuery

get_device_alerts-IsAlertsAnswer_example :
    IsAlertsAnswer
      (IsQueryable (sample_query (pos 1) untimed_text) × IsDecodable small_json untimed_text)
      (echo_error_middleware
        (λ v. v)
        (echo_get_device_alerts device_repository small_json encoding_error ok)
        (sample_query (pos 1) untimed_text)
        sample_world)
get_device_alerts-IsAlertsAnswer_example =
    get_device_alerts-IsAlertsAnswer small_json small_json-IsPlain small_json-IsTokenJson (λ v. v)
      encoding_error (λ page e h. late_alert-IsPlain page.alerts e h) ok
      (sample_query (pos 1) untimed_text) (sample_query (pos 1) untimed_text) sample_world refl
