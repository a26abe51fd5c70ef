-- ===== src/Device/Handlers.antt =====
-- device/connect_handler.go and device/echo_handler.go: requests of the two protocols turned into
-- calls of the service, and its results into their responses.
pub mod Laws
use iot_metrics.Base.{
  ℕ, ◌≡◌, String, Bool, List, [], ◌∷◌, map, Option, none, some, ℤ, if◌then◌else◌,
}
use iot_metrics.Device.PageToken.{TokenJson}
use iot_metrics.Device.Proto
use iot_metrics.Device.Repository.{Repository}
use iot_metrics.Device.Service
use iot_metrics.Device.Service.{World, pure}
use iot_metrics.Device.Types.{
  ConfigureDeviceRequest, RecordMetricRequest, GetDeviceAlertsRequest, GetDeviceAlertsResponse,
  ProtoAlert, alert_proto,
}
use iot_metrics.Go.Errors.{Error}
use iot_metrics.Go.Outcome.{Outcome, ok, err, panic, Call, return, next, ◌>>=◌, ◌>>◌}
use iot_metrics.Go.Time.{Time, zero_time}
use iot_metrics.Http.Response.{Response, no_content, json}
use iot_metrics.Http.Status.{status_created, status_ok}
use text.Mathlib.Text.{◌==◌}

-- A nil timestamp leaves the zero time in the request.
abbrev or_zero_time : Option Time → Time
or_zero_time none = zero_time
or_zero_time (some t) = t

abbrev pub start_of : Option Proto.Timeframe → Option Time
start_of none = none
start_of (some tf) = tf.start

abbrev pub end_of : Option Proto.Timeframe → Option Time
end_of none = none
end_of (some tf) = tf.end

abbrev pub to_configure_device : Proto.ConfigureDeviceRequest → ConfigureDeviceRequest
to_configure_device msg = record {
  device_id = msg.device_id;
  temperature_threshold = msg.temperature_threshold;
  battery_threshold = msg.battery_threshold;
}

abbrev pub to_record_metric : Proto.RecordMetricRequest → RecordMetricRequest
to_record_metric msg = record {
  device_id = msg.device_id;
  temperature = msg.temperature;
  battery = msg.battery;
  timestamp = or_zero_time msg.timestamp;
}

-- `int(req.Msg.PageSize)` widens.
abbrev pub to_get_device_alerts : Proto.GetDeviceAlertsRequest → GetDeviceAlertsRequest
to_get_device_alerts msg = record {
  device_id = msg.device_id;
  timeframe_start = start_of msg.timeframe;
  timeframe_end = end_of msg.timeframe;
  page_size = msg.page_size;
  page_token = msg.page_token;
}

abbrev pub to_alerts_response : GetDeviceAlertsResponse → Proto.GetDeviceAlertsResponse
to_alerts_response res = record {
  alerts = map alert_proto res.alerts;
  next_page_token = res.next_page_token;
}

module _ (r : Repository) where
  -- `ConnectHandler.ConfigureDevice`
  unfoldable pub connect_configure_device :
      Proto.ConfigureDeviceRequest → Call (World r.State) (Unit {0})
  connect_configure_device msg = do Service.configure_device r (to_configure_device msg); return tt

  -- `ConnectHandler.RecordMetric`
  unfoldable pub connect_record_metric : Proto.RecordMetricRequest → Call (World r.State) (Unit {0})
  connect_record_metric msg = do Service.record_metric r (to_record_metric msg); return tt

  -- `ConnectHandler.GetDeviceAlerts`
  unfoldable pub connect_get_device_alerts :
      TokenJson → Proto.GetDeviceAlertsRequest → Call (World r.State) Proto.GetDeviceAlertsResponse
  connect_get_device_alerts j msg = do
    res ← Service.get_device_alerts r j (to_get_device_alerts msg)
    return (to_alerts_response res)

-- `c.JSON`, if package encoding/json fails on the body with `failure`; then nothing was written.
abbrev pub written : {B : Type 0} → ℕ → B → Option Error → Outcome (Response B)
written code body none = ok (json code body)
written code body (some failure) = err failure

-- `c.Bind` of package echo is a parameter: it fills the request, or fails.
module _ (r : Repository) {C : Type 0} where
  -- `EchoHandler.ConfigureDevice`
  unfoldable pub echo_configure_device :
      (C → Outcome ConfigureDeviceRequest) → C → Call (World r.State) (Response (Unit {0}))
  echo_configure_device bind c = do
    req ← pure (bind c)
    Service.configure_device r req
    return (no_content status_created)

  -- `EchoHandler.RecordMetric`
  unfoldable pub echo_record_metric :
      (C → Outcome RecordMetricRequest) → C → Call (World r.State) (Response (Unit {0}))
  echo_record_metric bind c = do
    req ← pure (bind c)
    Service.record_metric r req
    return (no_content status_created)

  -- `EchoHandler.GetDeviceAlerts`, where encoding a response fails as `encoding_error` says.
  unfoldable pub echo_get_device_alerts :
      TokenJson
      → (GetDeviceAlertsResponse → Option Error)
      → (C → Outcome GetDeviceAlertsRequest)
      → C
      → Call (World r.State) (Response GetDeviceAlertsResponse)
  echo_get_device_alerts j encoding_error bind c = do
    req ← pure (bind c)
    res ← Service.get_device_alerts r j req
    pure (written status_ok res (encoding_error res))

-- The routes that `EchoHandler.Register` registers, as method and path.
abbrev pub device_routes : List (String × String)
device_routes =
    ("POST", "/devices/:device_id/config")
    ∷ ("POST", "/devices/:device_id/metrics")
    ∷ ("GET", "/devices/:device_id/alerts")
    ∷ []

-- `EchoRequestDeviceIDGetter`, of the path parameter `device_id`.
unfoldable pub echo_request_device_id_getter : String → Option String
echo_request_device_id_getter device_id = if device_id == "" then none else some device_id

-- `ConnectRequestDeviceIDGetter`: any message with a `GetDeviceId`.
unfoldable pub connect_request_device_id_getter : Proto.AnyRequest → Option String
connect_request_device_id_getter (Proto.AnyRequest.configure_device m) = some m.device_id
connect_request_device_id_getter (Proto.AnyRequest.record_metric m) = some m.device_id
connect_request_device_id_getter (Proto.AnyRequest.get_device_alerts m) = some m.device_id
connect_request_device_id_getter Proto.AnyRequest.other_message = none
