-- ===== src/Tests/Service.antt =====
-- The service at concrete inputs.
use iot_metrics.Base.{◌≡◌, none, pos, ◌↔◌}
use iot_metrics.Device.Service.{metric_of, record_metric, configure_device}
use iot_metrics.Device.Service.Laws.{
  Recorded, record_metric-Recorded, Configured, configure_device-Configured,
}
use iot_metrics.Device.Validation.Laws.{
  IsRecordable, IsQueryable, validate_record_metric_req_iff, validate_get_device_alerts_req_iff,
}
use iot_metrics.Device.Validation.{validate_record_metric_req, validate_get_device_alerts_req}
use iot_metrics.Sqlite.Repository.{device_repository, save_device_metric}
use iot_metrics.Sqlite.Repository.Lawful.{device_repository-IsLawful, view_db}
use iot_metrics.Tests.Samples.{sample_world, sample_metric, sample_config, sample_query}

record_metric-Recorded_example :
    Recorded device_repository device_repository-IsLawful sample_metric
      (view_db sample_world.repo)
      (save_device_metric "d" (metric_of sample_metric) sample_world.repo).1
      (record_metric device_repository sample_metric sample_world)
unfolding device_repository-IsLawful
record_metric-Recorded_example =
    record_metric-Recorded device_repository device_repository-IsLawful sample_metric sample_world

configure_device-Configured_example :
    Configured device_repository device_repository-IsLawful sample_config sample_world
      (configure_device device_repository sample_config sample_world)
configure_device-Configured_example =
    configure_device-Configured device_repository device_repository-IsLawful sample_config
      sample_world

validate_record_metric_req_iff_example :
    (validate_record_metric_req sample_metric ≡ none) ↔ IsRecordable sample_metric
validate_record_metric_req_iff_example = validate_record_metric_req_iff sample_metric

validate_get_device_alerts_req_iff_example :
    (validate_get_device_alerts_req (sample_query (pos 1) "") ≡ none)
    ↔ IsQueryable (sample_query (pos 1) "")
validate_get_device_alerts_req_iff_example =
    validate_get_device_alerts_req_iff (sample_query (pos 1) "")
