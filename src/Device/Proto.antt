-- ===== src/Device/Proto.antt =====
-- The messages of proto/iot/v1/service.proto. A timestamp is the time that its `AsTime` gives.
use iot_metrics.Base.{String, List, Option, ℤ}
use iot_metrics.Device.Types.{ProtoAlert}
use iot_metrics.Go.Float64.{Float64}
use iot_metrics.Go.Time.{Time}

pub record ConfigureDeviceRequest : Type 0 where
  pub device_id : String
  pub temperature_threshold : Float64
  pub battery_threshold : ℤ

pub record RecordMetricRequest : Type 0 where
  pub device_id : String
  pub timestamp : Option Time
  pub temperature : Float64
  pub battery : ℤ

pub record Timeframe : Type 0 where
  pub start : Option Time
  pub end : Option Time

pub record GetDeviceAlertsRequest : Type 0 where
  pub device_id : String
  pub timeframe : Option Timeframe
  pub page_size : ℤ
  pub page_token : String

pub record GetDeviceAlertsResponse : Type 0 where
  pub alerts : List ProtoAlert
  pub next_page_token : String

-- A request as an interceptor sees it: `req.Any()`.
pub data AnyRequest : Type 0 where
  configure_device : ConfigureDeviceRequest → AnyRequest
  record_metric : RecordMetricRequest → AnyRequest
  get_device_alerts : GetDeviceAlertsRequest → AnyRequest
  -- a message with no `GetDeviceId`
  other_message : AnyRequest
