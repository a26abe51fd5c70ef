-- ===== src/Device/Service.antt =====
-- device/service.go, over any repository. The state of a call is the repository's and what was
-- logged so far, the latest entry first.
pub mod Evaluation
pub mod Laws
use Prim.Native.String.{◌++◌}
use iot_metrics.Base.{
  String, ◌≡◌, Bool, List, [], ◌∷◌, Option, none, some, ℤ, pos, ltb_ℤ, eqb_ℤ, ◌-ℤ◌, to_int32,
  if◌then◌else◌,
}
use iot_metrics.Go.Arith.{sub_float}
use iot_metrics.Go.Errors.{Error, is_not_found, bad_request}
use iot_metrics.Go.Float64.{Float64, ltb_float}
use iot_metrics.Go.Fmt.{print_float, print_int}
use iot_metrics.Go.Outcome.{
  Outcome, ok, err, panic, Call, return, fail, next, wrapping, ◌>>=◌, ◌>>◌,
}
use iot_metrics.Go.Time.{Time}
use iot_metrics.Device.PageToken.{TokenJson, encode_page_token, decode_page_token}
use iot_metrics.Device.Repository.{Repository}
use iot_metrics.Device.Types.{
  Config, zero_config, Metric, Alert, alert_reason_temperature_high, alert_reason_battery_low,
  Timeframe, RepositoryPage, RepositoryPageToken, ConfigureDeviceRequest, RecordMetricRequest,
  GetDeviceAlertsRequest, GetDeviceAlertsResponse,
}
use iot_metrics.Device.Validation.{
  validate_configure_device_req, validate_record_metric_req, validate_get_device_alerts_req,
}
use text.Mathlib.Text.{◌==◌}

-- `defaultPageSize, maxPageSize = 100, 250`
abbrev pub default_page_size : ℤ
default_page_size = pos 100

abbrev pub max_page_size : ℤ
max_page_size = pos 250

-- The log lines of the service with their values.
pub data Event : Type 0 where
  configured_device : String → Float64 → ℤ → Event
  recorded_metric : String → Time → Float64 → ℤ → Event
  -- device, time, temperature, threshold and the text of their difference
  temperature_alert : String → Time → Float64 → Float64 → String → Event
  -- device, time, battery, threshold and their difference
  battery_alert : String → Time → ℤ → ℤ → ℤ → Event

pub record World (S : Type 0) : Type 0 where
  pub repo : S
  pub log : List Event

-- `tempHighDesc`
unfoldable pub temp_high_desc : Float64 → Float64 → String
unfolding print_float
temp_high_desc temp threshold =
    "Temperature ("
    ++ (print_float temp ++ (") exceeded configured threshold (" ++ (print_float threshold ++ ")")))

-- `batteryLowDesc`
unfoldable pub battery_low_desc : ℤ → ℤ → String
unfolding print_int
battery_low_desc battery threshold =
    "Battery ("
    ++ (print_int battery
        ++ (") dropped below configured threshold (" ++ (print_int threshold ++ ")")))

-- A call of the repository within the service.
abbrev pub inside : {S A : Type 0} → World S → Outcome A × S → Outcome A × World S
inside w (o, s) = (o, record w { repo = s })

abbrev pub lift : {S A : Type 0} → Call S A → Call (World S) A
lift m w = inside w (m w.repo)

-- `logger.Info`
abbrev pub info : {S : Type 0} → Event → Call (World S) (Unit {0})
info e w = (ok tt, record w { log = e ∷ w.log })

-- `if err := validate…(req); err != nil { return err }`
abbrev pub guarded : {S A : Type 0} → Option Error → Call S A → Call S A
guarded none m = m
guarded (some e) m = fail e

abbrev pub config_of : ConfigureDeviceRequest → Config
config_of req = record {
  temperature_threshold = req.temperature_threshold;
  battery_threshold = req.battery_threshold;
}

abbrev pub metric_of : RecordMetricRequest → Metric
metric_of req = record {
  temperature = req.temperature;
  battery = req.battery;
  time = req.timestamp;
}

abbrev pub high_alert : RecordMetricRequest → Config → Alert
high_alert req cfg = record {
  reason = alert_reason_temperature_high;
  desc = temp_high_desc req.temperature cfg.temperature_threshold;
  time = req.timestamp;
}

abbrev pub low_alert : RecordMetricRequest → Config → Alert
low_alert req cfg = record {
  reason = alert_reason_battery_low;
  desc = battery_low_desc req.battery cfg.battery_threshold;
  time = req.timestamp;
}

-- `fmt.Sprintf("%.2f", req.Temperature-cfg.TemperatureThreshold)`
unfoldable pub temperature_difference : RecordMetricRequest → Config → String
temperature_difference req cfg = print_float (sub_float req.temperature cfg.temperature_threshold)

-- `cfg.BatteryThreshold-req.Battery`, of int32 values
unfoldable pub battery_difference : RecordMetricRequest → Config → ℤ
battery_difference req cfg = to_int32 (cfg.battery_threshold -ℤ req.battery)

module _ (r : Repository) where
  -- `ConfigureDevice`
  unfoldable pub configure_device : ConfigureDeviceRequest → Call (World r.State) (Unit {0})
  configure_device req = guarded (validate_configure_device_req req) do
    wrapping "upsert device config" (lift (r.upsert_device_config req.device_id (config_of req)))
    info (configured_device req.device_id req.temperature_threshold req.battery_threshold)

  -- `if req.Temperature > cfg.TemperatureThreshold { … }`
  unfoldable pub check_temperature : RecordMetricRequest → Config → Call (World r.State) (Unit {0})
  check_temperature req cfg =
      if ltb_float cfg.temperature_threshold req.temperature
      then info (
          temperature_alert req.device_id req.timestamp req.temperature cfg.temperature_threshold
            (temperature_difference req cfg))
        >> wrapping "save temperature alert"
            (lift (r.save_device_alert req.device_id (high_alert req cfg)))
      else return tt

  -- `if req.Battery < cfg.BatteryThreshold { … }`
  unfoldable pub check_battery : RecordMetricRequest → Config → Call (World r.State) (Unit {0})
  check_battery req cfg =
      if ltb_ℤ req.battery cfg.battery_threshold
      then info (
          battery_alert req.device_id req.timestamp req.battery cfg.battery_threshold
            (battery_difference req cfg))
        >> wrapping "save battery alert"
            (lift (r.save_device_alert req.device_id (low_alert req cfg)))
      else return tt

  unfoldable pub evaluate : RecordMetricRequest → Config → Call (World r.State) (Unit {0})
  evaluate req cfg = do check_temperature req cfg; check_battery req cfg

  -- The error of `GetDeviceConfig` ends the call if no thresholds are configured. Any other is
  -- dropped, and the evaluation goes on with the `Config{}` that is returned with it.
  unfoldable pub after_config :
      RecordMetricRequest → Outcome Config × World r.State → Outcome (Unit {0}) × World r.State
  after_config req (ok cfg, w) = evaluate req cfg w
  after_config req (err e, w) = if is_not_found e then (ok tt, w) else evaluate req zero_config w
  after_config req (panic, w) = (panic, w)

  -- `RecordMetric`
  unfoldable pub record_metric : RecordMetricRequest → Call (World r.State) (Unit {0})
  unfolding after_config evaluate check_temperature check_battery
  record_metric req = guarded (validate_record_metric_req req) do
    wrapping "save device metric" (lift (r.save_device_metric req.device_id (metric_of req)))
    info (recorded_metric req.device_id req.timestamp req.temperature req.battery)
    λ w. after_config req (lift (r.get_device_config req.device_id) w)

-- The page size that is asked of the repository.
unfoldable pub clamp_page_size : ℤ → ℤ
clamp_page_size size =
    if eqb_ℤ size (pos 0)
    then default_page_size
    else if ltb_ℤ max_page_size size
    then max_page_size
    else size

-- A token that cannot be decoded is a bad request, with no violations.
abbrev pub decoded : Outcome RepositoryPageToken → Outcome (Option RepositoryPageToken)
decoded (ok t) = ok (some t)
decoded (err e) = err (bad_request [])
decoded panic = panic

module _ (j : TokenJson) where
  -- The page token of a request, if it has one; a token that cannot be decoded is a bad request.
  unfoldable pub request_token : String → Outcome (Option RepositoryPageToken)
  request_token text = if text == "" then ok none else decoded (decode_page_token j text)

  -- The page token of a response; the empty text stands for none.
  unfoldable pub response_token : Option RepositoryPageToken → Outcome String
  response_token none = ok ""
  response_token (some t) = encode_page_token j t

abbrev pub timeframe_of : GetDeviceAlertsRequest → Timeframe
timeframe_of req = record { start = req.timeframe_start; end = req.timeframe_end }

-- A computation without effects as a call.
abbrev pub pure : {S A : Type 0} → Outcome A → Call S A
pure o s = (o, s)

module _ (r : Repository) (j : TokenJson) where
  -- `GetDeviceAlerts`
  unfoldable pub get_device_alerts :
      GetDeviceAlertsRequest → Call (World r.State) GetDeviceAlertsResponse
  get_device_alerts req = guarded (validate_get_device_alerts_req req) do
    token ← pure (request_token j req.page_token)
    page ← wrapping "get device alerts" (
        lift (
          r.get_device_alerts req.device_id (timeframe_of req)
            (record { size = clamp_page_size req.page_size; token = token })))
    next_token ← pure (response_token j page.next_page_token)
    return (record { alerts = page.items; next_page_token = next_token })
