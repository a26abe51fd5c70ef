-- ===== src/Device/Validation/Rejection.antt =====
-- What the validators of device/validation.go answer to a request that they reject.
use iot_metrics.Base.{◌≡◌, String, List, ◌∷◌, some}
use iot_metrics.Device.Types.{ConfigureDeviceRequest, RecordMetricRequest, GetDeviceAlertsRequest}
use iot_metrics.Device.Validation.{
  validate_configure_device_req, validate_record_metric_req, validate_get_device_alerts_req,
}
use iot_metrics.Go.Errors.{Error, bad_request}
use iot_metrics.Http.Validator.{error-bad_request}

-- A rejection is a bad request with a violation.
abbrev pub IsRejection : Error → Type 0
IsRejection e =
    (x : String × List String) × (xs : List (String × List String)) × (e ≡ bad_request (x ∷ xs))

pub validate_configure_device_req-IsRejection :
    (req : ConfigureDeviceRequest) (e : Error)
    → validate_configure_device_req req ≡ some e
    → IsRejection e
unfolding validate_configure_device_req
validate_configure_device_req-IsRejection req e h = error-bad_request _ e h

pub validate_record_metric_req-IsRejection :
    (req : RecordMetricRequest) (e : Error)
    → validate_record_metric_req req ≡ some e
    → IsRejection e
unfolding validate_record_metric_req
validate_record_metric_req-IsRejection req e h = error-bad_request _ e h

pub validate_get_device_alerts_req-IsRejection :
    (req : GetDeviceAlertsRequest) (e : Error)
    → validate_get_device_alerts_req req ≡ some e
    → IsRejection e
unfolding validate_get_device_alerts_req
validate_get_device_alerts_req-IsRejection req e h = error-bad_request _ e h
