-- ===== src/Connect.antt =====
-- proto/gen/iot/v1/iotv1connect/service.connect.go: the generated client and handler of DeviceService. The
-- packages connect and net/http carry a message from one to the other, and are parameters.
pub mod Laws
use Prim.Native.String.{◌++◌}
use iot_metrics.Base.{String, []}
use iot_metrics.Device.Proto
use iot_metrics.Go.Errors.{connect, unimplemented}
use iot_metrics.Go.Outcome.{Call, fail}
use iot_metrics.Go.Strings.{trim_right_char}
use iot_metrics.Base.{if◌then◌else◌}
use text.Mathlib.Text.{◌==◌}

-- `DeviceServiceName`
abbrev pub device_service_name : String
device_service_name = "iot.v1.DeviceService"

-- `DeviceServiceRecordMetricProcedure`
abbrev pub record_metric_procedure : String
record_metric_procedure = "/iot.v1.DeviceService/RecordMetric"

-- `DeviceServiceConfigureDeviceProcedure`
abbrev pub configure_device_procedure : String
configure_device_procedure = "/iot.v1.DeviceService/ConfigureDevice"

-- `DeviceServiceGetDeviceAlertsProcedure`
abbrev pub get_device_alerts_procedure : String
get_device_alerts_procedure = "/iot.v1.DeviceService/GetDeviceAlerts"

-- `DeviceServiceHandler`, which is the interface of the client `DeviceServiceClient` as well. A response
-- without fields is a unit.
pub record DeviceService (S : Type 0) : Type 0 where
  pub record_metric : Proto.RecordMetricRequest → Call S (Unit {0})
  pub configure_device : Proto.ConfigureDeviceRequest → Call S (Unit {0})
  pub get_device_alerts : Proto.GetDeviceAlertsRequest → Call S Proto.GetDeviceAlertsResponse

-- `connect.NewUnaryHandler`, of a procedure and a method, for each type of messages, and `http.NotFound`.
pub record UnaryHandlers (S Raw Reply : Type 0) : Type 0 where
  pub record_metric : String → (Proto.RecordMetricRequest → Call S (Unit {0})) → Raw → Call S Reply
  pub configure_device :
      String → (Proto.ConfigureDeviceRequest → Call S (Unit {0})) → Raw → Call S Reply
  pub get_device_alerts :
      String
      → (Proto.GetDeviceAlertsRequest → Call S Proto.GetDeviceAlertsResponse)
      → Raw
      → Call S Reply
  pub not_found : Raw → Call S Reply

-- `CallUnary` of what `connect.NewClient` makes of a URL, for each type of messages.
pub record Clients (S : Type 0) : Type 0 where
  pub record_metric : String → Proto.RecordMetricRequest → Call S (Unit {0})
  pub configure_device : String → Proto.ConfigureDeviceRequest → Call S (Unit {0})
  pub get_device_alerts :
      String → Proto.GetDeviceAlertsRequest → Call S Proto.GetDeviceAlertsResponse

-- The path that `NewDeviceServiceHandler` returns.
abbrev pub device_service_path : String
device_service_path = "/iot.v1.DeviceService/"

-- The handler that `NewDeviceServiceHandler` returns, at the path of a request.
unfoldable pub new_device_service_handler :
    {S Raw Reply : Type 0}
    → UnaryHandlers S Raw Reply
    → DeviceService S
    → String
    → Raw
    → Call S Reply
new_device_service_handler unary svc path =
    if path == record_metric_procedure
    then unary.record_metric record_metric_procedure svc.record_metric
    else if path == configure_device_procedure
    then unary.configure_device configure_device_procedure svc.configure_device
    else if path == get_device_alerts_procedure
    then unary.get_device_alerts get_device_alerts_procedure svc.get_device_alerts
    else unary.not_found

-- `NewDeviceServiceClient`, with the methods of `deviceServiceClient`
unfoldable pub new_device_service_client : {S : Type 0} → Clients S → String → DeviceService S
unfolding trim_right_char
new_device_service_client clients base_url =
    let base = trim_right_char "/" base_url in
    record {
      record_metric = clients.record_metric (base ++ record_metric_procedure);
      configure_device = clients.configure_device (base ++ configure_device_procedure);
      get_device_alerts = clients.get_device_alerts (base ++ get_device_alerts_procedure);
    }

-- `UnimplementedDeviceServiceHandler`
abbrev pub unimplemented_device_service : {S : Type 0} → DeviceService S
unimplemented_device_service = record {
  record_metric =
      λ msg. fail (connect unimplemented "iot.v1.DeviceService.RecordMetric is not implemented" []);
  configure_device = λ msg.
      fail (connect unimplemented "iot.v1.DeviceService.ConfigureDevice is not implemented" []);
  get_device_alerts = λ msg.
      fail (connect unimplemented "iot.v1.DeviceService.GetDeviceAlerts is not implemented" []);
}
