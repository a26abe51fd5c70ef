-- ===== src/Device/Validation.antt =====
-- device/validation.go.
pub mod Laws
pub mod Rejection
use Prim.Native.String.{◌++◌}
use iot_metrics.Base.{String, ◌≡◌, Bool, ◌||◌, Option, none, some, ℤ, pos, negsuc, ltb_ℤ}
use iot_metrics.Go.Errors.{Error}
use iot_metrics.Go.Float64.{Float64, ltb_float, of_whole}
use iot_metrics.Go.Fmt.{print_float, print_int}
use iot_metrics.Go.Text.{trim_space}
use iot_metrics.Go.Time.{Time, is_zero, after}
use iot_metrics.Http.Validator.{RequestValidator, new_request_validator, check, error}
use iot_metrics.Device.Types.{ConfigureDeviceRequest, RecordMetricRequest, GetDeviceAlertsRequest}
use text.Mathlib.Text.{◌==◌}

-- `minTemperature, maxTemperature = -10000.00, 10000.00`
unfoldable pub min_temperature : Float64
unfolding of_whole
min_temperature = of_whole (negsuc 9999)

unfoldable pub max_temperature : Float64
unfolding of_whole
max_temperature = of_whole (pos 10000)

-- `minBattery, maxBattery = 0, 100`
abbrev pub min_battery : ℤ
min_battery = pos 0

abbrev pub max_battery : ℤ
max_battery = pos 100

unfoldable pub is_blank : String → Bool
is_blank s = trim_space s == ""

abbrev pub temperature_outside : Float64 → Bool
temperature_outside t = ltb_float t min_temperature || ltb_float max_temperature t

abbrev pub battery_outside : ℤ → Bool
battery_outside b = ltb_ℤ b min_battery || ltb_ℤ max_battery b

-- `Messagef("Must be between %.2f and %.2f", minTemperature, maxTemperature)`
temperature_message : String
unfolding print_float min_temperature max_temperature
temperature_message =
    "Must be between " ++ (print_float min_temperature ++ (" and " ++ print_float max_temperature))

-- `Messagef("Must be between %d and %d", minBattery, maxBattery)`
battery_message : String
unfolding print_int
battery_message =
    "Must be between " ++ (print_int min_battery ++ (" and " ++ print_int max_battery))

configure_device_checks : ConfigureDeviceRequest → RequestValidator
configure_device_checks req =
    let v = check new_request_validator "device_id" (is_blank req.device_id) "Must not be blank" in
    let v' =
      check v "temperature_threshold" (temperature_outside req.temperature_threshold)
        temperature_message in
    check v' "battery_threshold" (battery_outside req.battery_threshold) battery_message

unfoldable pub validate_configure_device_req : ConfigureDeviceRequest → Option Error
unfolding configure_device_checks temperature_message battery_message
validate_configure_device_req req = error (configure_device_checks req)

record_metric_checks : RecordMetricRequest → RequestValidator
record_metric_checks req =
    let v = check new_request_validator "device_id" (is_blank req.device_id) "Must not be blank" in
    let v' = check v "timestamp" (is_zero req.timestamp) "Must not be empty" in
    let v'' = check v' "temperature" (temperature_outside req.temperature) temperature_message in
    check v'' "battery" (battery_outside req.battery) battery_message

unfoldable pub validate_record_metric_req : RecordMetricRequest → Option Error
unfolding record_metric_checks temperature_message battery_message
validate_record_metric_req req = error (record_metric_checks req)

-- `if req.TimeframeEnd != nil { … }` inside the block for the start.
check_order : RequestValidator → Time → Option Time → RequestValidator
check_order v start none = v
check_order v start (some end) =
    check v "timeframe.start" (after start end) "Must be before timeframe.end"

-- `if req.TimeframeStart != nil { … }`
check_start : RequestValidator → Option Time → Option Time → RequestValidator
unfolding check_order
check_start v none end = v
check_start v (some start) end =
    check_order (check v "timeframe.start" (is_zero start) "Must not be empty") start end

-- `if req.TimeframeEnd != nil { … }`
check_end : RequestValidator → Option Time → RequestValidator
check_end v none = v
check_end v (some end) = check v "timeframe.end" (is_zero end) "Must not be empty"

get_device_alerts_checks : GetDeviceAlertsRequest → RequestValidator
unfolding check_start check_end
get_device_alerts_checks req =
    let v = check new_request_validator "device_id" (is_blank req.device_id) "Must not be blank" in
    let v' = check_end (check_start v req.timeframe_start req.timeframe_end) req.timeframe_end in
    check v' "page.size" (ltb_ℤ req.page_size (pos 0)) "Must be greater than 0"

unfoldable pub validate_get_device_alerts_req : GetDeviceAlertsRequest → Option Error
unfolding get_device_alerts_checks
validate_get_device_alerts_req req = error (get_device_alerts_checks req)
