-- ===== src/Tests/Pages.antt =====
-- Pages, panics and the database at concrete inputs.
use iot_metrics.Base.{◌≡◌, ◌↔◌, List, [], ◌∷◌, none, some, pos, arith, map, false}
use iot_metrics.Device.PageToken.{decode_page_token, decode-encode_page_token}
use iot_metrics.Device.Repository.{Writes, put_config, add_metric, add_alert}
use iot_metrics.Device.Service.{
  get_device_alerts, config_of, metric_of, temp_high_desc, record_metric,
}
use iot_metrics.Device.Types.{alert_reason_temperature_high}
use iot_metrics.Go.Float64.{finite}
use iot_metrics.Go.Outcome.{ok, panic}
use iot_metrics.Sqlite.Repository
use iot_metrics.Sqlite.Repository.{
  device_repository, to_alert, to_metric, upsert_device_config, save_device_metric,
  save_device_alert, get_device_config,
}
use iot_metrics.Sqlite.Repository.Lawful.{
  view_db, upsert_device_config-Writes, save_device_metric-Writes, save_device_alert-Writes,
}
use iot_metrics.Sqlite.Repository.Reading.{Reads, get_device_config-Reads}
use iot_metrics.Sqlite.Repository.Listing.{IsListing}
use iot_metrics.Sqlite.Repository.Valid.{
  after_call, after_call-IsValid, IsReachable-IsValid, IsValid, save_alert,
}
use iot_metrics.Sqlite.Repository.Following.{walk}
use iot_metrics.Sqlite.Repository.Walk.{walk-get_device_alerts, walk-get_device_metrics}
use iot_metrics.Sqlite.Tables.{Row, AlertValues, MetricValues, Fault, insert_row}
use iot_metrics.System.Alerts.{walk_pages, walk_pages_all}
use iot_metrics.System.Panics.{get_device_alerts-panic_iff, IsUntimed}
use iot_metrics.System.Thresholds.{failed_read_alerts}
use iot_metrics.Device.Validation.Laws.{IsQueryable}
use iot_metrics.Tests.Codec.{small_json, small_json-IsTokenJson}
use iot_metrics.Tests.Samples.{
  sample_db, sample_db-IsReachable, sample_world, sample_config, sample_metric, sample_query,
  sample_alert, sample-Encodes, untimed_text, sample_query-IsQueryable, sample_metric-IsRecordable,
  since_seven, sample_token, sample_text, sample_text-eq, metric_db, metric_db-IsReachable,
  sample_metric-hot, sample_db-no_faults, sample_db-length, metric_db-no_faults, metric_db-length,
}

walk_pages_all_example :
    (found : List (Row AlertValues)) × IsListing "d" since_seven sample_db.alerts.rows found
    × (walk_pages small_json (sample_query (pos 1) "") 3 "" sample_world
        ≡ (ok (map to_alert found), sample_world))
walk_pages_all_example =
    walk_pages_all small_json small_json-IsTokenJson (sample_query (pos 1) "") sample_world 3
      sample_query-IsQueryable sample_db-no_faults sample_db-IsReachable sample-Encodes
      (omega (arith, sample_db-length))

get_device_alerts-panic_iff_example :
    ((get_device_alerts device_repository small_json
        (sample_query (pos 1) untimed_text)
        sample_world).0
      ≡ panic)
    ↔ (IsQueryable (sample_query (pos 1) untimed_text)
        × IsUntimed small_json small_json-IsTokenJson
            (sample_query (pos 1) untimed_text)
            sample_world)
get_device_alerts-panic_iff_example =
    get_device_alerts-panic_iff small_json small_json-IsTokenJson
      (sample_query (pos 1) untimed_text) sample_world

failed_read_alerts_example :
    let x = record_metric device_repository sample_metric (record {
      repo = record sample_db { faults = none ∷ some (Fault.failure "locked") ∷ none ∷ [] };
      log = [];
    }) in
    (x.0 ≡ ok tt)
    × (x.1.repo.alerts
        ≡ insert_row "d"
            (record {
              reason = alert_reason_temperature_high;
              desc = temp_high_desc sample_metric.temperature (finite false 0);
            })
            (pos 9)
            sample_db.alerts)
failed_read_alerts_example =
    failed_read_alerts sample_metric sample_db [] (Fault.failure "locked") []
      sample_metric-IsRecordable sample_metric-hot

walk-get_device_alerts_example :
    (found : List (Row AlertValues)) × IsListing "d" since_seven sample_db.alerts.rows found
    × (walk
          (λ token.
            Repository.get_device_alerts "d" since_seven (record { size = pos 1; token = token }))
          3
          none
          sample_db
        ≡ (ok (map to_alert found), sample_db))
walk-get_device_alerts_example =
    walk-get_device_alerts "d" since_seven 1 3 sample_db (omega arith) (omega arith)
      sample_db-no_faults sample_db-IsReachable (omega (arith, sample_db-length))

walk-get_device_metrics_example :
    (found : List (Row MetricValues)) × IsListing "d" since_seven metric_db.metrics.rows found
    × (walk
          (λ token.
            Repository.get_device_metrics "d" since_seven (record { size = pos 1; token = token }))
          3
          none
          metric_db
        ≡ (ok (map to_metric found), metric_db))
walk-get_device_metrics_example =
    walk-get_device_metrics "d" since_seven 1 3 metric_db (omega arith) (omega arith)
      metric_db-no_faults metric_db-IsReachable (omega (arith, metric_db-length))

after_call-IsValid_example :
    IsValid (after_call (save_alert "e" (sample_alert "BATTERY_LOW")) sample_db)
after_call-IsValid_example =
    after_call-IsValid (save_alert "e" (sample_alert "BATTERY_LOW")) sample_db
      (IsReachable-IsValid sample_db-IsReachable)

decode-encode_page_token_example : decode_page_token small_json sample_text ≡ ok sample_token
decode-encode_page_token_example =
    decode-encode_page_token small_json small_json-IsTokenJson sample_token sample_text
      sample_text-eq

upsert_device_config-Writes_example :
    Writes view_db
      (put_config "d" (config_of sample_config))
      sample_db
      (upsert_device_config "d" (config_of sample_config) sample_db)
upsert_device_config-Writes_example =
    upsert_device_config-Writes "d" (config_of sample_config) sample_db (omega arith)

save_device_metric-Writes_example :
    Writes view_db
      (add_metric "d" (metric_of sample_metric))
      sample_db
      (save_device_metric "d" (metric_of sample_metric) sample_db)
save_device_metric-Writes_example =
    save_device_metric-Writes "d" (metric_of sample_metric) sample_db (omega arith)

save_device_alert-Writes_example :
    Writes view_db
      (add_alert "e" (sample_alert "BATTERY_LOW"))
      sample_db
      (save_device_alert "e" (sample_alert "BATTERY_LOW") sample_db)
save_device_alert-Writes_example =
    save_device_alert-Writes "e" (sample_alert "BATTERY_LOW") sample_db

get_device_config-Reads_example : Reads "d" sample_db (get_device_config "d" sample_db)
get_device_config-Reads_example = get_device_config-Reads "d" sample_db
