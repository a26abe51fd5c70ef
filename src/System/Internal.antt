-- ===== src/System/Internal.antt =====
-- Calls of the service that neither panic nor return an error that tells of the request.
use iot_metrics.Base.{
  ◌≡◌, refl, inl, inr, String, List, [], ◌∷◌, Bool-cases, ltb_ℤ, ◌≢◌, Option, none, some,
}
use iot_metrics.Device.Service.{
  World, temperature_alert, battery_alert, temperature_difference, battery_difference, inside,
  configure_device, record_metric, evaluate, check_temperature, check_battery, after_config,
  config_of, metric_of,
}
use iot_metrics.Device.Types.{
  Config, Metric, Alert, ConfigureDeviceRequest, RecordMetricRequest, zero_config,
}
use iot_metrics.Device.Validation.{validate_configure_device_req, validate_record_metric_req}
use iot_metrics.Go.Errors.{Error, as_bad_request, as_echo_http, as_connect, other, is_not_found}
use iot_metrics.Go.Float64.{ltb_float}
use iot_metrics.Go.Outcome.{Outcome, ok, err, panic, Call, next, wrap_error}
use iot_metrics.Sqlite.Queries
use iot_metrics.Sqlite.Repository.{
  device_repository, upsert_device_config, save_device_metric, save_device_alert, get_device_config,
}
use iot_metrics.Sqlite.Repository.Lawful.{get_device_config-Finds}
use iot_metrics.Sqlite.Tables.{Db, Fault, fault_error, run_next}

-- An error that says nothing of the request and nothing of HTTP.
pub record IsPlain (e : Error) : Type 0 where
  pub no_violations : as_bad_request e ≡ none
  pub no_echo : as_echo_http e ≡ none
  pub no_connect : as_connect e ≡ none

-- A call that does not panic and returns only plain errors.
abbrev pub IsInternal : {S A : Type 0} → Outcome A × S → Type 0
IsInternal (ok a, s) = Unit
IsInternal (err e, s) = IsPlain e
IsInternal (panic, s) = ⊥

next-IsInternal :
    {S A B : Type 0} (x : Outcome A × S) (k : A → Call S B)
    → IsInternal x
    → ((a : A) (s : S) → IsInternal (k a s))
    → IsInternal (next x k)
next-IsInternal (ok a, s) k h f = f a s
next-IsInternal (err e, s) k h f = h
next-IsInternal (panic, s) k h f = absurd h

wrapped-IsInternal :
    {S A : Type 0} (text : String) (w : World S) (x : Outcome A × S)
    → IsInternal x
    → IsInternal (wrap_error text (inside w x))
unfolding as_bad_request as_echo_http as_connect
wrapped-IsInternal text w (ok a, s) h = tt
wrapped-IsInternal text w (err e, s) h = record {
  no_violations = h.no_violations;
  no_echo = h.no_echo;
  no_connect = h.no_connect;
}
wrapped-IsInternal text w (panic, s) h = absurd h

pub IsPlain-fault : (f : Fault) → IsPlain (fault_error f)
unfolding as_bad_request as_echo_http as_connect
IsPlain-fault Fault.context_canceled = record {
  no_violations = refl;
  no_echo = refl;
  no_connect = refl;
}
IsPlain-fault (Fault.failure text) = record {
  no_violations = refl;
  no_echo = refl;
  no_connect = refl;
}

IsPlain-other : (text : String) → IsPlain (other text)
IsPlain-other text = IsPlain-fault (Fault.failure text)

run_next-IsInternal :
    {A : Type 0} (faults : List (Option Fault)) (body : Call Db A) (db : Db)
    → ((d : Db) → IsInternal (body d))
    → IsInternal (run_next faults body db)
run_next-IsInternal [] body db h = h db
run_next-IsInternal (none ∷ rest) body db h = h (record db { faults = rest })
run_next-IsInternal (some f ∷ rest) body db h = IsPlain-fault f

upsert-IsInternal : (id : String) (c : Config) (db : Db) → IsInternal (upsert_device_config id c db)
unfolding upsert_device_config Queries.upsert_device_config
upsert-IsInternal id c db = run_next-IsInternal db.faults _ db λ d.
    elim (Bool-cases (Queries.is_null c.temperature_threshold)) [
      | inl e ↦ rw e (IsPlain-other _)
      | inr e ↦ rw e tt
    ]

save_metric-IsInternal :
    (id : String) (m : Metric) (db : Db) → IsInternal (save_device_metric id m db)
unfolding save_device_metric Queries.save_device_metric
save_metric-IsInternal id m db = run_next-IsInternal db.faults _ db λ d.
    elim (Bool-cases (Queries.is_null m.temperature)) [
      | inl e ↦ rw e (IsPlain-other _)
      | inr e ↦ rw e tt
    ]

save_alert-IsInternal : (id : String) (a : Alert) (db : Db) → IsInternal (save_device_alert id a db)
unfolding save_device_alert Queries.save_device_alert
save_alert-IsInternal id a db = run_next-IsInternal db.faults _ db (λ d. tt)

-- Reading thresholds never panics.
get_config-returns : (id : String) (db : Db) → (get_device_config id db).0 ≢ panic
get_config-returns id db e = elim (get_device_config-Finds id db).1 [
  | inl (c, is_ok, found) ↦ cc
  | inr (f, is_err, why) ↦ cc
]

check_temperature-IsInternal :
    (req : RecordMetricRequest) (c : Config) (w : World Db)
    → IsInternal (check_temperature device_repository req c w)
unfolding check_temperature
check_temperature-IsInternal req c w =
    elim (Bool-cases (ltb_float c.temperature_threshold req.temperature)) [
      | inl e ↦ rw e (
          wrapped-IsInternal _
            (record w {
              log =
                  temperature_alert req.device_id req.timestamp req.temperature
                    c.temperature_threshold (temperature_difference req c)
                  ∷ w.log;
            })
            _ (save_alert-IsInternal _ _ w.repo))
      | inr e ↦ rw e tt
    ]

check_battery-IsInternal :
    (req : RecordMetricRequest) (c : Config) (w : World Db)
    → IsInternal (check_battery device_repository req c w)
unfolding check_battery
check_battery-IsInternal req c w = elim (Bool-cases (ltb_ℤ req.battery c.battery_threshold)) [
  | inl e ↦ rw e (
      wrapped-IsInternal _
        (record w {
          log =
              battery_alert req.device_id req.timestamp req.battery c.battery_threshold
                (battery_difference req c)
              ∷ w.log;
        })
        _ (save_alert-IsInternal _ _ w.repo))
  | inr e ↦ rw e tt
]

evaluate-IsInternal :
    (req : RecordMetricRequest) (c : Config) (w : World Db)
    → IsInternal (evaluate device_repository req c w)
unfolding evaluate
evaluate-IsInternal req c w =
    next-IsInternal (check_temperature device_repository req c w) _
      (check_temperature-IsInternal req c w) (λ _ v. check_battery-IsInternal req c v)

after_config-IsInternal :
    (req : RecordMetricRequest) (x : Outcome Config × World Db)
    → x.0 ≢ panic
    → IsInternal (after_config device_repository req x)
unfolding after_config
after_config-IsInternal req (ok c, w) h = evaluate-IsInternal req c w
after_config-IsInternal req (err e, w) h = elim (Bool-cases (is_not_found e)) [
  | inl f ↦ rw f tt
  | inr f ↦ rw f (evaluate-IsInternal req zero_config w)
]
after_config-IsInternal req (panic, w) h = absurd (h refl)

pub record_metric-IsInternal :
    (req : RecordMetricRequest) (w : World Db)
    → validate_record_metric_req req ≡ none
    → IsInternal (record_metric device_repository req w)
unfolding record_metric
record_metric-IsInternal req w e = rw e (
    next-IsInternal
      (wrap_error "save device metric"
        (inside w (save_device_metric req.device_id (metric_of req) w.repo)))
      _ (wrapped-IsInternal _ w _ (save_metric-IsInternal req.device_id (metric_of req) w.repo))
      (λ _ v. after_config-IsInternal req _ (get_config-returns req.device_id v.repo)))

pub configure_device-IsInternal :
    (req : ConfigureDeviceRequest) (w : World Db)
    → validate_configure_device_req req ≡ none
    → IsInternal (configure_device device_repository req w)
unfolding configure_device
configure_device-IsInternal req w e = rw e (
    next-IsInternal
      (wrap_error "upsert device config"
        (inside w (upsert_device_config req.device_id (config_of req) w.repo)))
      _ (wrapped-IsInternal _ w _ (upsert-IsInternal req.device_id (config_of req) w.repo))
      (λ _ v. tt))
