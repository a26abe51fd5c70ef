-- ===== src/Tests/Samples.antt =====
-- Requests, and a database with two alerts of one second.
use iot_metrics.Base.{
  ℕ, ◌≡◌, refl, true, false, [], ◌∷◌, none, some, ℤ, pos, arith, String, inl, inr, sym, subst, ap,
  length,
}
use iot_metrics.Device.PageToken.{encode_page_token}
use iot_metrics.System.Alerts.{Encodes}
use iot_metrics.Sqlite.Queries
use iot_metrics.Sqlite.Repository.{token_of, save_device_alert, save_device_metric}
use iot_metrics.Device.Service.{World, metric_of}
use iot_metrics.Go.Text.{AllSpace}
use iot_metrics.Device.Validation.Laws.{IsQueryable, IsRecordable}
use iot_metrics.Device.Types.{
  Timeframe, RepositoryPageToken, ConfigureDeviceRequest, RecordMetricRequest,
  GetDeviceAlertsRequest, Alert,
}
use iot_metrics.Go.Base64.{encode_to_string}
use iot_metrics.Go.Float64.{finite, of_whole, units, ltb_float}
use iot_metrics.Go.Outcome.{ok}
use iot_metrics.Go.Time.{Time, of_unix}
use iot_metrics.Sqlite.Repository.Valid.{
  save_alert, save_metric, after_call, IsReachable, start, call,
}
use iot_metrics.Sqlite.Tables.{Db, migrated, insert_row}
use iot_metrics.Tests.Codec.{small_json, marshal_parts, marshal_secs, marshal_small}

abbrev pub at_second : ℕ → Time
at_second n = of_unix (pos n)

abbrev pub sample_alert : String → Alert
sample_alert reason = record { reason = reason; desc = "sample"; time = at_second 7 }

-- Two alerts of one device in one second, and the configuration of another device.
abbrev pub sample_db : Db
sample_db = after_call (save_alert "d" (sample_alert "BATTERY_LOW")) (
    after_call (save_alert "d" (sample_alert "TEMPERATURE_HIGH")) (record migrated { faults = [] }))

pub sample_db-IsReachable : IsReachable sample_db
sample_db-IsReachable =
    call (save_alert "d" (sample_alert "BATTERY_LOW"))
      (call (save_alert "d" (sample_alert "TEMPERATURE_HIGH")) (start []))

abbrev pub sample_world : World Db
sample_world = record { repo = sample_db; log = [] }

abbrev pub sample_config : ConfigureDeviceRequest
sample_config = record {
  device_id = "d";
  temperature_threshold = of_whole (pos 50);
  battery_threshold = pos 20;
}

abbrev pub sample_metric : RecordMetricRequest
sample_metric = record {
  device_id = "d";
  temperature = finite false 1;
  battery = pos 50;
  timestamp = at_second 9;
}

abbrev pub sample_query : ℤ → String → GetDeviceAlertsRequest
sample_query size token = record {
  device_id = "d";
  timeframe_start = some (at_second 7);
  timeframe_end = none;
  page_size = size;
  page_token = token;
}

-- The tokens of both alerts are encoded.
pub sample-Encodes : Encodes small_json sample_db.alerts.rows
unfolding small_json marshal_parts marshal_secs marshal_small encode_page_token save_device_alert
    Queries.save_device_alert insert_row
sample-Encodes row (inl e) =
    subst (λ r. (text : String) × (encode_page_token small_json (token_of r) ≡ ok text)) (sym e)
      (_, refl)
sample-Encodes row (inr (inl e)) =
    subst (λ r. (text : String) × (encode_page_token small_json (token_of r) ≡ ok text)) (sym e)
      (_, refl)
sample-Encodes row (inr (inr h)) = elim h [ ]

-- A text for a token that holds no time: the base64 of one byte, which is decoded to two nulls.
abbrev pub untimed_text : String
untimed_text = encode_to_string (0 ∷ [])

abbrev pub since_seven : Timeframe
since_seven = record { start = some (at_second 7); end = none }

-- A token, and the text of it.
abbrev pub sample_token : RepositoryPageToken
sample_token = record { last_time = some (at_second 7); last_id = some (pos 2) }

abbrev pub sample_text : String
sample_text = encode_to_string (7 ∷ 2 ∷ [])

pub sample_text-eq : encode_page_token small_json sample_token ≡ ok sample_text
unfolding small_json marshal_parts marshal_secs marshal_small encode_page_token
sample_text-eq = refl

-- The name of the device is not blank.
d_device : ¬ AllSpace "d"
d_device h = cc h.0

pub sample_query-IsQueryable : IsQueryable (sample_query (pos 1) "")
sample_query-IsQueryable = record {
  device = d_device;
  start = λ h. cc (ap (λ (t : Time). t.secs) h);
  end = tt;
  page_size = omega arith;
}

pub sample_metric-IsRecordable : IsRecordable sample_metric
unfolding units
sample_metric-IsRecordable = record {
  device = d_device;
  timestamp = λ h. cc (ap (λ (t : Time). t.secs) h);
  temperature = omega arith;
  battery = record { lowest = omega arith; highest = omega arith };
}

-- One metric of the device.
abbrev pub metric_db : Db
metric_db = after_call (save_metric "d" (metric_of sample_metric)) (record migrated { faults = [] })

pub metric_db-IsReachable : IsReachable metric_db
metric_db-IsReachable = call (save_metric "d" (metric_of sample_metric)) (start [])

pub sample_db-no_faults : sample_db.faults ≡ []
unfolding save_device_alert Queries.save_device_alert
sample_db-no_faults = refl

pub sample_db-length : length sample_db.alerts.rows ≡ 2
unfolding save_device_alert Queries.save_device_alert insert_row
sample_db-length = refl

pub metric_db-no_faults : metric_db.faults ≡ []
unfolding save_device_metric Queries.save_device_metric
metric_db-no_faults = refl

pub metric_db-length : length metric_db.metrics.rows ≡ 1
unfolding save_device_metric Queries.save_device_metric insert_row
metric_db-length = refl

-- The smallest temperature above zero.
pub sample_metric-hot : ltb_float (finite false 0) sample_metric.temperature ≡ true
unfolding ltb_float
sample_metric-hot = refl
