-- ===== src/System/Thresholds.antt =====
-- What recording a metric does over the SQLite repository when the device's thresholds cannot be read.
use iot_metrics.Base.{◌≡◌, refl, true, false, List, ◌∷◌, Option, none, some, ℤ, pos, arith, ltb_ℤ}
use iot_metrics.Device.Service.{Event, record_metric, temp_high_desc}
use iot_metrics.Device.Types.{RecordMetricRequest, alert_reason_temperature_high}
use iot_metrics.Device.Validation.Laws.{IsRecordable, IsBattery, validate_record_metric_req_iff}
use iot_metrics.Go.Errors.{is_not_found, is_no_rows}
use iot_metrics.Go.Float64.{Float64, nan, neg_inf, pos_inf, finite, ltb_float}
use iot_metrics.Go.Outcome.{ok}
use iot_metrics.Go.Time.{unix}
use iot_metrics.Sqlite.Queries
use iot_metrics.Sqlite.Repository.{
  device_repository, save_device_metric, get_device_config, save_device_alert,
}
use iot_metrics.Sqlite.Tables.{Db, Fault, fault_error, insert_row}

abbrev zero_float : Float64
zero_float = finite false 0

-- A number above zero is not NaN.
not_null : (t : Float64) → ltb_float zero_float t ≡ true → Queries.is_null t ≡ false
unfolding ltb_float
not_null nan h = cc
not_null neg_inf h = refl
not_null pos_inf h = refl
not_null (finite s m) h = refl

no_low_battery : (b : ℤ) → IsBattery b → ltb_ℤ b (pos 0) ≡ false
no_low_battery b h = ground arith

fault-not_found : (f : Fault) → is_not_found (fault_error f) ≡ false
unfolding is_not_found
fault-not_found Fault.context_canceled = refl
fault-not_found (Fault.failure text) = refl

fault-no_rows : (f : Fault) → is_no_rows (fault_error f) ≡ false
unfolding is_no_rows
fault-no_rows Fault.context_canceled = refl
fault-no_rows (Fault.failure text) = refl

-- If an acceptable metric with a temperature above zero is saved, reading the thresholds of its device then
-- fails, other than by finding none, and no failure is in store for saving an alert, the metric is
-- reported as a success and raises a temperature alert against a threshold of zero, whatever threshold
-- the device has.
pub failed_read_alerts :
    (req : RecordMetricRequest) (db : Db) (log : List Event) (f : Fault)
    (rest : List (Option Fault))
    → IsRecordable req
    → ltb_float zero_float req.temperature ≡ true
    → let x =
        record_metric device_repository req
          (record { repo = record db { faults = none ∷ some f ∷ none ∷ rest }; log = log }) in
      (x.0 ≡ ok tt)
      × (x.1.repo.alerts
          ≡ insert_row req.device_id
              (record {
                reason = alert_reason_temperature_high;
                desc = temp_high_desc req.temperature zero_float;
              })
              (unix req.timestamp)
              db.alerts)
unfolding record_metric save_device_metric get_device_config save_device_alert
    Queries.save_device_metric Queries.get_device_config Queries.save_device_alert
failed_read_alerts req db log f rest valid hot =
    rw
      (
        (validate_record_metric_req_iff req).1 valid,
        not_null req.temperature hot,
        fault-no_rows f,
        fault-not_found f,
        hot,
        no_low_battery req.battery valid.battery,
      )
      (refl, refl)
