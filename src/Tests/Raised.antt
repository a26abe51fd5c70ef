-- ===== src/Tests/Raised.antt =====
-- A metric that breaches both thresholds of its device, recorded and read back.
use iot_metrics.Base.{
  ◌+ℤ◌, ◌≡◌, refl, false, [], some, pos, arith, to_int32, inl, inr, subst, sym, String, length,
}
use iot_metrics.Device.PageToken.{encode_page_token}
use iot_metrics.Device.Service.{World, record_metric}
use iot_metrics.Device.Types.{Config}
use iot_metrics.Device.Validation.{validate_record_metric_req, is_blank}
use iot_metrics.Http.Validator.{error, message}
use iot_metrics.Go.Time.{is_zero}
use iot_metrics.Go.Text.{trim_space}
use iot_metrics.Go.Dict.{lookup, insert}
use iot_metrics.Go.Float64.{finite, ltb_float}
use iot_metrics.Go.Outcome.{ok}
use iot_metrics.Sqlite.Queries
use iot_metrics.Sqlite.Repository.{
  device_repository, token_of, upsert_device_config, save_device_metric, get_device_config,
  save_device_alert,
}
use iot_metrics.Sqlite.Repository.Lawful.{view_db}
use iot_metrics.Sqlite.Repository.Valid.{upsert_config, after_call, start, call}
use iot_metrics.Sqlite.Tables.{Db, migrated, insert_row}
use iot_metrics.System.Alerts.{Encodes}
use iot_metrics.System.Raised.{FindsRaised, raised_alerts_found}
use iot_metrics.Tests.Codec.{
  small_json, small_json-IsTokenJson, marshal_parts, marshal_secs, marshal_small,
}
use iot_metrics.Tests.Samples.{
  sample_metric, sample_metric-IsRecordable, sample_query, sample_query-IsQueryable,
}

-- The metric's temperature is above zero, and its battery below 60.
abbrev thresholds : Config
thresholds = record { temperature_threshold = finite false 0; battery_threshold = pos 60 }

abbrev guarded_db : Db
guarded_db = after_call (upsert_config "d" thresholds) (record migrated { faults = [] })

abbrev guarded_world : World Db
guarded_world = record { repo = guarded_db; log = [] }

guarded-no_faults : guarded_db.faults ≡ []
unfolding upsert_device_config Queries.upsert_device_config
guarded-no_faults = refl

guarded-has : (view_db guarded_db).config "d" ≡ some thresholds
unfolding view_db upsert_device_config Queries.upsert_device_config insert lookup to_int32
guarded-has = refl

abbrev recorded_world : World Db
recorded_world = (record_metric device_repository sample_metric guarded_world).1

recorded_world-length : length recorded_world.repo.alerts.rows ≡ 2
unfolding record_metric save_device_metric get_device_config save_device_alert upsert_device_config
    Queries.save_device_metric Queries.get_device_config Queries.save_device_alert
    Queries.upsert_device_config insert_row insert lookup ltb_float validate_record_metric_req error
    message is_zero is_blank trim_space to_int32
recorded_world-length = refl

recorded_world-Encodes : Encodes small_json recorded_world.repo.alerts.rows
unfolding record_metric save_device_metric get_device_config save_device_alert upsert_device_config
    Queries.save_device_metric Queries.get_device_config Queries.save_device_alert
    Queries.upsert_device_config insert_row insert lookup ltb_float small_json marshal_parts
    marshal_secs marshal_small encode_page_token validate_record_metric_req error message is_zero
    is_blank trim_space to_int32
recorded_world-Encodes row (inl e) =
    subst (λ r. (text : String) × (encode_page_token small_json (token_of r) ≡ ok text)) (sym e)
      (_, refl)
recorded_world-Encodes row (inr (inl e)) =
    subst (λ r. (text : String) × (encode_page_token small_json (token_of r) ≡ ok text)) (sym e)
      (_, refl)
recorded_world-Encodes row (inr (inr h)) = elim h [ ]

raised_alerts_found_example :
    ((record_metric device_repository sample_metric guarded_world).0 ≡ ok tt)
    × FindsRaised small_json small_json-IsTokenJson sample_metric
        (sample_query (pos 1) "")
        thresholds
        3
        recorded_world
raised_alerts_found_example =
    raised_alerts_found small_json small_json-IsTokenJson sample_metric (sample_query (pos 1) "")
      thresholds guarded_world 3 guarded-no_faults (call (upsert_config "d" thresholds) (start []))
      guarded-has sample_metric-IsRecordable refl sample_query-IsQueryable refl
      (inl (unfold ◌+ℤ◌ in omega arith)) tt recorded_world-Encodes
      (omega (arith, recorded_world-length))
