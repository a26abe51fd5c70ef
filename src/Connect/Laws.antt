-- ===== src/Connect/Laws.antt =====
-- A call of the generated client reaches the handler's method of the same name.
use Prim.Native.String.{◌++◌}
use iot_metrics.Base.{ℕ, String, ◌≡◌, refl}
use iot_metrics.Connect.{
  DeviceService, UnaryHandlers, Clients, new_device_service_handler, new_device_service_client,
  record_metric_procedure, configure_device_procedure, get_device_alerts_procedure,
}
use iot_metrics.Device.Proto
use iot_metrics.Go.Errors.{Error}
use iot_metrics.Go.Outcome.{Outcome, ok, err, panic, Call}
use iot_metrics.Go.Strings.{trim_right_char, trim_right_char-slashes, slashes}

-- What a client is told of a call: an error as it arrives, and `lost` for a connection that a panic closed.
abbrev pub received : {S A : Type 0} → (Error → Error) → Error → Outcome A × S → Outcome A × S
received arrive lost (ok a, s) = (ok a, s)
received arrive lost (err e, s) = (err (arrive e), s)
received arrive lost (panic, s) = (err lost, s)

-- What packages connect and net/http promise together of a server `mounted` at `host`: a call at the URL
-- of a path where a unary handler of a method serves is a call of that method.
pub record IsCarried {S Raw Reply : Type 0} (host : String) (arrive : Error → Error) (lost : Error)
    (unary : UnaryHandlers S Raw Reply) (clients : Clients S)
    (mounted : String → Raw → Call S Reply) : Type 0 where
  pub record_metric :
      (path procedure : String) (f : Proto.RecordMetricRequest → Call S (Unit {0}))
      → mounted path ≡ unary.record_metric procedure f
      → (msg : Proto.RecordMetricRequest) (s : S)
      → clients.record_metric (host ++ path) msg s ≡ received arrive lost (f msg s)
  pub configure_device :
      (path procedure : String) (f : Proto.ConfigureDeviceRequest → Call S (Unit {0}))
      → mounted path ≡ unary.configure_device procedure f
      → (msg : Proto.ConfigureDeviceRequest) (s : S)
      → clients.configure_device (host ++ path) msg s ≡ received arrive lost (f msg s)
  pub get_device_alerts :
      (path procedure : String)
      (f : Proto.GetDeviceAlertsRequest → Call S Proto.GetDeviceAlertsResponse)
      → mounted path ≡ unary.get_device_alerts procedure f
      → (msg : Proto.GetDeviceAlertsRequest) (s : S)
      → clients.get_device_alerts (host ++ path) msg s ≡ received arrive lost (f msg s)

-- Each method of a client is the method of that name of the service behind the handler, but for how
-- errors arrive.
pub record IsRemote {S : Type 0} (arrive : Error → Error) (lost : Error)
    (client svc : DeviceService S) : Type 0 where
  pub record_metric :
      (msg : Proto.RecordMetricRequest) (s : S)
      → client.record_metric msg s ≡ received arrive lost (svc.record_metric msg s)
  pub configure_device :
      (msg : Proto.ConfigureDeviceRequest) (s : S)
      → client.configure_device msg s ≡ received arrive lost (svc.configure_device msg s)
  pub get_device_alerts :
      (msg : Proto.GetDeviceAlertsRequest) (s : S)
      → client.get_device_alerts msg s ≡ received arrive lost (svc.get_device_alerts msg s)

-- A client made for a base URL reaches, by each of its methods, the method of the same name of the service
-- whose handler is mounted at the host of the URL, however many slashes the URL ends in.
pub new_device_service_client-IsRemote :
    {S Raw Reply : Type 0} (host : String) (n : ℕ) (arrive : Error → Error) (lost : Error)
    (unary : UnaryHandlers S Raw Reply) (clients : Clients S) (svc : DeviceService S)
    → trim_right_char "/" host ≡ host
    → IsCarried host arrive lost unary clients (new_device_service_handler unary svc)
    → IsRemote arrive lost (new_device_service_client clients (host ++ slashes n)) svc
unfolding new_device_service_client new_device_service_handler
new_device_service_client-IsRemote host n arrive lost unary clients svc bare carried =
    rw (trim_right_char-slashes host n, bare)
      (record {
        record_metric =
            carried.record_metric record_metric_procedure record_metric_procedure svc.record_metric
              refl;
        configure_device =
            carried.configure_device configure_device_procedure configure_device_procedure
              svc.configure_device refl;
        get_device_alerts =
            carried.get_device_alerts get_device_alerts_procedure get_device_alerts_procedure
              svc.get_device_alerts refl;
      })
