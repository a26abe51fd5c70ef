-- ===== src/Tests/Run.antt =====
-- The start and the end of the program, its server, and its generated client, at concrete inputs.
use Prim.Native.String.{◌++◌, len, slice}
use iot_metrics.Base.{◌≡◌, refl, ◌↔◌, inr, arith, true, String, List, [], ◌∷◌, none, some, In}
use iot_metrics.Config.{Config, default_config, load, validate}
use iot_metrics.Connect.{
  UnaryHandlers, Clients, new_device_service_handler, new_device_service_client,
  unimplemented_device_service, device_service_path, device_service_name,
}
use iot_metrics.Connect.Laws.{IsCarried, IsRemote, received, new_device_service_client-IsRemote}
use iot_metrics.Device.Handlers.{device_routes}
use iot_metrics.Device.Proto
use iot_metrics.Go.Errors.{other, canceled, no_change, is_no_change}
use iot_metrics.Go.Mux.{route}
use iot_metrics.Go.Outcome.{Outcome, ok, err, panic, Call}
use iot_metrics.Go.Strings.{trim_right_char, slashes}
use iot_metrics.Http.Server.{Library}
use iot_metrics.Http.Server.Laws.{IsGrpcLibrary, started, serve-routes}
use iot_metrics.Log.{Line, level_error, error_value, parse_level}
use iot_metrics.Main.Run.{Env, interrupted, returned, run, main_end}
use iot_metrics.Main.Run.Laws.{IsStarted, IsQuiet, run-eq-zero_iff, run_cut_off}
use text.Mathlib.Text.{starts_with}
use text.Mathlib.TextPositions.{len-append, slice-append_right}

-- Everything works, nothing is left to migrate, and a signal comes while a request is answered.
abbrev busy_env : Env
busy_env = record {
  config_file = "";
  open_config = λ path. some (other "no such file");
  decode = λ path cfg. (none, cfg);
  parse_env = λ cfg. (none, cfg);
  opening = record {
    make_dir = λ dir. none;
    open_file = λ name. none;
    foreign_keys = none;
    write_ahead = none;
    attempts = record { ping = λ i. none; done = λ i. none };
  };
  migrating = record { source = none; driver = none; instance_ = none; up = some no_change };
  ending = interrupted;
  shutdown = λ ctx. ctx.done;
}

busy_env-IsStarted : IsStarted busy_env default_config
unfolding load validate parse_level is_no_change
busy_env-IsStarted = record {
  loads = refl;
  opens = (inr refl, refl, refl, refl, (0, omega arith, refl, λ k small. elim small [ ]));
  migrates = record {
    source = refl;
    driver = refl;
    instance_ = refl;
    up = inr (no_change, refl, refl);
  };
}

run-eq-zero_iff_example :
    ((main_end (run busy_env)).0 ≡ 0)
    ↔ ((cfg : Config) × IsStarted busy_env cfg × IsQuiet busy_env.ending)
run-eq-zero_iff_example = run-eq-zero_iff busy_env

run_cut_off_example :
    (lines : List Line) × (run busy_env
      ≡ returned none (
          record {
            level = level_error;
            message = "failed to stop server";
            attrs = ("error", error_value canceled) ∷ [];
          }
          ∷ lines))
run_cut_off_example = run_cut_off busy_env default_config busy_env-IsStarted refl (λ ctx e h. h)

abbrev library : Library String
library = record {
  health = λ names. ("/grpc.health.v1.Health/", "health");
  health_name = "grpc.health.v1.Health";
  reflector = λ names. ("/grpc.reflection.v1.ServerReflection/", "reflection");
  reflector_alpha = λ names. ("/grpc.reflection.v1alpha.ServerReflection/", "reflection alpha");
  echo = "echo";
}

library-IsGrpcLibrary : IsGrpcLibrary library
library-IsGrpcLibrary = record {
  health = λ names. ("health.v1.Health/", refl);
  reflector = λ names. ("reflection.v1.ServerReflection/", refl);
  reflector_alpha = λ names. ("reflection.v1alpha.ServerReflection/", refl);
  health_reflector = λ names all_names. refl;
  health_alpha = λ names all_names. refl;
  reflector_alpha_apart = λ names. refl;
}

serve-routes_example :
    let s = started library ":8080" "device" device_routes in
    (s.0 ≡ ok tt)
    × In (library.health (device_service_name ∷ [])) s.1.mux
    × ((path : String)
        → (route path s.1.mux ≡ some (device_service_path, "device"))
          ↔ (starts_with path device_service_path ≡ true))
serve-routes_example = serve-routes library ":8080" "device" library-IsGrpcLibrary device_routes

-- A network without a wire: a handler is the method that it was made of, at a message of a type.
data Raw : Type 0 where
  record_metric : Proto.RecordMetricRequest → Raw
  configure_device : Proto.ConfigureDeviceRequest → Raw
  get_device_alerts : Proto.GetDeviceAlertsRequest → Raw

data Reply : Type 0 where
  empty missing : Reply
  page : Proto.GetDeviceAlertsResponse → Reply

answered : {S A : Type 0} → (A → Reply) → Outcome A × S → Outcome Reply × S
answered reply (ok a, s) = (ok (reply a), s)
answered reply (err e, s) = (err e, s)
answered reply (panic, s) = (panic, s)

path_of : String → String
path_of url = slice url 8 (len url)

path-of_url : (path : String) → path_of ("http://h" ++ path) ≡ path
unfolding path_of
path-of_url path = rw (len-append "http://h" path) (slice-append_right "http://h" path)

module _ {S : Type 0} where
  bad : Call S Reply
  bad s = (err (other "bad message"), s)

  unary_record : (Proto.RecordMetricRequest → Call S (Unit {0})) → Raw → Call S Reply
  unary_record f (record_metric msg) s = answered (λ _. empty) (f msg s)
  unary_record f _ s = bad s

  unary_configure : (Proto.ConfigureDeviceRequest → Call S (Unit {0})) → Raw → Call S Reply
  unary_configure f (configure_device msg) s = answered (λ _. empty) (f msg s)
  unary_configure f _ s = bad s

  unary_alerts :
      (Proto.GetDeviceAlertsRequest → Call S Proto.GetDeviceAlertsResponse) → Raw → Call S Reply
  unary_alerts f (get_device_alerts msg) s = answered page (f msg s)
  unary_alerts f _ s = bad s

  abbrev unary : UnaryHandlers S Raw Reply
  unary = record {
    record_metric = λ procedure. unary_record;
    configure_device = λ procedure. unary_configure;
    get_device_alerts = λ procedure. unary_alerts;
    not_found = λ raw s. (ok missing, s);
  }

  read_empty : Outcome Reply × S → Outcome (Unit {0}) × S
  read_empty (ok empty, s) = (ok tt, s)
  read_empty (ok _, s) = (err (other "bad reply"), s)
  read_empty (err e, s) = (err e, s)
  read_empty (panic, s) = (err (other "lost"), s)

  read_page : Outcome Reply × S → Outcome Proto.GetDeviceAlertsResponse × S
  read_page (ok (page p), s) = (ok p, s)
  read_page (ok _, s) = (err (other "bad reply"), s)
  read_page (err e, s) = (err e, s)
  read_page (panic, s) = (err (other "lost"), s)

  read-empty :
      (x : Outcome (Unit {0}) × S)
      → read_empty (answered (λ _. empty) x) ≡ received (λ e. e) (other "lost") x
  unfolding read_empty answered
  read-empty (ok _, s) = refl
  read-empty (err e, s) = refl
  read-empty (panic, s) = refl

  read-page :
      (x : Outcome Proto.GetDeviceAlertsResponse × S)
      → read_page (answered page x) ≡ received (λ e. e) (other "lost") x
  unfolding read_page answered
  read-page (ok _, s) = refl
  read-page (err e, s) = refl
  read-page (panic, s) = refl

  abbrev clients_at : (String → Raw → Call S Reply) → Clients S
  clients_at mounted = record {
    record_metric = λ url msg s. read_empty (mounted (path_of url) (record_metric msg) s);
    configure_device = λ url msg s. read_empty (mounted (path_of url) (configure_device msg) s);
    get_device_alerts = λ url msg s. read_page (mounted (path_of url) (get_device_alerts msg) s);
  }

  clients_at-IsCarried :
      (mounted : String → Raw → Call S Reply)
      → IsCarried "http://h" (λ e. e) (other "lost") unary (clients_at mounted) mounted
  unfolding unary_record unary_configure unary_alerts
  clients_at-IsCarried mounted = record {
    record_metric = λ path procedure f h msg s. rw (path-of_url path, h) (read-empty (f msg s));
    configure_device = λ path procedure f h msg s. rw (path-of_url path, h) (read-empty (f msg s));
    get_device_alerts = λ path procedure f h msg s. rw (path-of_url path, h) (read-page (f msg s));
  }

new_device_service_client-IsRemote_example :
    IsRemote {S = Unit {0}}
      (λ e. e)
      (other "lost")
      (new_device_service_client
        (clients_at (new_device_service_handler unary unimplemented_device_service))
        ("http://h" ++ slashes 2))
      unimplemented_device_service
unfolding trim_right_char
new_device_service_client-IsRemote_example =
    new_device_service_client-IsRemote "http://h" 2 (λ e. e) (other "lost") unary
      (clients_at (new_device_service_handler unary unimplemented_device_service))
      unimplemented_device_service refl
      (clients_at-IsCarried (new_device_service_handler unary unimplemented_device_service))
