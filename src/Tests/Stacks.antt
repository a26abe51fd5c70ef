-- ===== src/Tests/Stacks.antt =====
-- The stacks of middleware at concrete requests.
use iot_metrics.Base.{refl, ℕ, [], none, some, pos, false}
use iot_metrics.Config.{default_config}
use iot_metrics.Device.Handlers.{
  connect_record_metric, echo_record_metric, to_record_metric, connect_get_device_alerts,
  to_get_device_alerts,
}
use iot_metrics.Device.Proto
use iot_metrics.Device.Types.{RecordMetricRequest}
use iot_metrics.Device.Validation.Laws.{IsRecordable, IsQueryable}
use iot_metrics.Go.Float64.{finite}
use iot_metrics.Go.Outcome.{ok}
use iot_metrics.Http.Response.{Response, echo_error_middleware, connect_error_interceptor}
use iot_metrics.Main.{logger_of-level}
use iot_metrics.Main.Stacks.{rest_stack, connect_stack, limited_echo, limited_connect}
use iot_metrics.Main.Stacks.Laws.{
  AnswersAs, RecoversAs, rest_stack-AnswersAs, connect_stack-RecoversAs,
}
use iot_metrics.Sqlite.Repository.{device_repository}
use iot_metrics.System.AlertsAnswers.{IsDecodable}
use iot_metrics.System.AlertsStack.{WaitedAlerts, get_device_alerts-connect_stack}
use iot_metrics.System.Stack.{
  WaitedRest, WaitedConnect, record_metric-rest_stack, record_metric-connect_stack,
}
use iot_metrics.Tests.Codec.{small_json, small_json-IsTokenJson, small_json-IsPlain}
use iot_metrics.Tests.Samples.{untimed_text, sample_world, sample_metric, at_second}
use iot_metrics.Tests.Middleware.{
  one_wait, post_logger, post_logger-IsRequestLogger, answer_panic, answer_panic-IsWithRecover,
  logger, not_options, broken, code_number, code_name, clock,
}

rest_stack-AnswersAs_example :
    AnswersAs {S = ℕ}
      (limited_echo
        (some one_wait)
        (λ c. none)
        (λ c. "peer")
        (broken {S = ℕ} {A = Response (Unit {0})})
        5
        (0, 7)).0
      []
      (echo_error_middleware
        (λ v. v)
        (limited_echo {B = Unit {0}} (some one_wait) (λ c. none) (λ c. "peer") broken)
        5
        (0, 7))
      (rest_stack
        (λ v. v)
        logger
        (some one_wait)
        (λ c. none)
        (λ c. "peer")
        post_logger
        broken
        5
        ([], (0, 7)))
rest_stack-AnswersAs_example =
    rest_stack-AnswersAs (λ v. v) logger (logger_of-level default_config).0 (some one_wait)
      (λ c. none) (λ c. "peer") (λ c. "POST") post_logger broken 5 [] (0, 7)
      post_logger-IsRequestLogger not_options

connect_stack-RecoversAs_example :
    RecoversAs {S = ℕ} []
      (connect_error_interceptor
        (λ v. v)
        (limited_connect {B = Unit {0}} (some one_wait) (λ c. none) (λ c. "peer") broken)
        5
        (0, 7))
      (connect_stack
        (λ v. v)
        logger
        (some one_wait)
        (λ c. none)
        (λ c. "peer")
        code_number
        code_name
        answer_panic
        "/iot.v1.DeviceService/RecordMetric"
        clock
        broken
        5
        ([], (0, 7)))
connect_stack-RecoversAs_example =
    connect_stack-RecoversAs (λ v. v) logger (logger_of-level default_config).0 (some one_wait)
      (λ c. none) (λ c. "peer") code_number code_name "/iot.v1.DeviceService/RecordMetric" clock
      answer_panic broken 5 [] (0, 7) answer_panic-IsWithRecover

record_metric-rest_stack_example :
    let y =
      rest_stack
        (λ v. v)
        logger
        (some one_wait)
        (λ (c : RecordMetricRequest). some c.device_id)
        (λ c. "")
        post_logger
        (echo_record_metric device_repository ok)
        sample_metric
        ([], (0, sample_world)) in
    WaitedRest (IsRecordable sample_metric) sample_world (one_wait "d" 0) (y.0, y.1.1)
record_metric-rest_stack_example =
    record_metric-rest_stack (λ v. v) one_wait (λ (c : RecordMetricRequest). some c.device_id)
      (λ c. "") logger (λ c. "POST") post_logger ok sample_metric sample_metric [] 0 sample_world
      (logger_of-level default_config).0 post_logger-IsRequestLogger not_options refl

abbrev metric_message : Proto.RecordMetricRequest
metric_message = record {
  device_id = "d";
  temperature = finite false 1;
  battery = pos 50;
  timestamp = some (at_second 9);
}

record_metric-connect_stack_example :
    let y =
      connect_stack
        (λ v. v)
        logger
        (some one_wait)
        (λ (c : Proto.RecordMetricRequest). some c.device_id)
        (λ c. "")
        code_number
        code_name
        answer_panic
        "/iot.v1.DeviceService/RecordMetric"
        clock
        (connect_record_metric device_repository)
        metric_message
        ([], (0, sample_world)) in
    WaitedConnect
      (IsRecordable (to_record_metric metric_message))
      sample_world
      (one_wait "d" 0)
      (y.0, y.1.1)
record_metric-connect_stack_example =
    record_metric-connect_stack (λ v. v) one_wait
      (λ (c : Proto.RecordMetricRequest). some c.device_id) (λ c. "") logger code_number code_name
      answer_panic "/iot.v1.DeviceService/RecordMetric" clock metric_message [] 0 sample_world
      (logger_of-level default_config).0 answer_panic-IsWithRecover

abbrev untimed_message : Proto.GetDeviceAlertsRequest
untimed_message = record {
  device_id = "d";
  timeframe = none;
  page_size = pos 1;
  page_token = untimed_text;
}

get_device_alerts-connect_stack_example :
    let req = to_get_device_alerts untimed_message in
    let y =
      connect_stack
        (λ v. v)
        logger
        (some one_wait)
        (λ (c : Proto.GetDeviceAlertsRequest). some c.device_id)
        (λ c. "")
        code_number
        code_name
        answer_panic
        "/iot.v1.DeviceService/GetDeviceAlerts"
        clock
        (connect_get_device_alerts device_repository small_json)
        untimed_message
        ([], (0, sample_world)) in
    WaitedAlerts
      (IsQueryable req × IsDecodable small_json req.page_token)
      sample_world
      (one_wait "d" 0)
      (y.0, y.1.1)
get_device_alerts-connect_stack_example =
    get_device_alerts-connect_stack (λ v. v) logger one_wait
      (λ (c : Proto.GetDeviceAlertsRequest). some c.device_id) (λ c. "") code_number code_name
      answer_panic "/iot.v1.DeviceService/GetDeviceAlerts" clock small_json untimed_message [] 0
      sample_world (logger_of-level default_config).0 answer_panic-IsWithRecover small_json-IsPlain
      small_json-IsTokenJson
