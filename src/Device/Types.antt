-- ===== src/Device/Types.antt =====
-- The data of device/repository.go and the requests of device/echo_handler.go.
use iot_metrics.Base.{String, Bool, List, Option, ℤ, if◌then◌else◌}
use iot_metrics.Go.Float64.{Float64}
use iot_metrics.Go.Time.{Time}
use text.Mathlib.Text.{◌==◌}

-- Both fields are nil pointers in a token that was decoded from an object that lacks them.
pub record RepositoryPageToken : Type 0 where
  pub last_time : Option Time
  pub last_id : Option ℤ

pub record RepositoryPageOptions : Type 0 where
  pub size : ℤ
  pub token : Option RepositoryPageToken

pub record RepositoryPage (T : Type 0) : Type 0 where
  pub items : List T
  pub next_page_token : Option RepositoryPageToken

pub record Config : Type 0 where
  pub temperature_threshold : Float64
  pub battery_threshold : ℤ

-- `Config{}`
abbrev pub zero_config : Config
zero_config = record {
  temperature_threshold = Float64.finite Bool.false 0;
  battery_threshold = ℤ.pos 0;
}

pub record Metric : Type 0 where
  pub temperature : Float64
  pub battery : ℤ
  pub time : Time

-- `AlertReason` is a string type.
pub record Alert : Type 0 where
  pub reason : String
  pub desc : String
  pub time : Time

abbrev pub alert_reason_temperature_high : String
alert_reason_temperature_high = "TEMPERATURE_HIGH"

abbrev pub alert_reason_battery_low : String
alert_reason_battery_low = "BATTERY_LOW"

pub record Timeframe : Type 0 where
  pub start : Option Time
  pub end : Option Time

-- `iotv1.Alert_Reason`
pub data ProtoReason : Type 0 where
  reason_unspecified reason_temperature_high reason_battery_low : ProtoReason

pub record ProtoAlert : Type 0 where
  pub reason : ProtoReason
  pub description : String
  pub timestamp : Time

-- `AlertReason.Proto`
unfoldable pub reason_proto : String → ProtoReason
reason_proto r =
    if r == alert_reason_temperature_high
    then ProtoReason.reason_temperature_high
    else if r == alert_reason_battery_low
    then ProtoReason.reason_battery_low
    else ProtoReason.reason_unspecified

-- `Alert.Proto`. A protobuf timestamp has the seconds and nanoseconds of its time.
unfoldable pub alert_proto : Alert → ProtoAlert
unfolding reason_proto
alert_proto a = record { reason = reason_proto a.reason; description = a.desc; timestamp = a.time }

pub record ConfigureDeviceRequest : Type 0 where
  pub device_id : String
  pub temperature_threshold : Float64
  pub battery_threshold : ℤ

pub record RecordMetricRequest : Type 0 where
  pub device_id : String
  pub temperature : Float64
  pub battery : ℤ
  pub timestamp : Time

pub record GetDeviceAlertsRequest : Type 0 where
  pub device_id : String
  pub timeframe_start : Option Time
  pub timeframe_end : Option Time
  pub page_size : ℤ
  pub page_token : String

pub record GetDeviceAlertsResponse : Type 0 where
  pub alerts : List Alert
  pub next_page_token : String
