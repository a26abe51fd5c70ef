-- ===== src/System/Saved.antt =====
-- device/service.go over sqlite/repository.go: what recording a metric leaves in the database when no
-- statement fails.
use iot_metrics.Base.{
  ◌≡◌, refl, sym, ap, subst, ◌∙◌, inl, inr, String, Bool, true, false, List, [], ◌∷◌, ◌++◌, Option,
  none, some, ltb_ℤ, Bool-cases, In, In-append_right, In-append_left,
}
use iot_metrics.Device.Repository.{to_second}
use iot_metrics.Device.Service.{World, Event, record_metric, high_alert, low_alert, metric_of}
use iot_metrics.Device.Types.{Config, RecordMetricRequest, Alert}
use iot_metrics.Device.Validation.Laws.{IsRecordable, validate_record_metric_req_iff}
use iot_metrics.Go.Dict.{lookup}
use iot_metrics.Go.Float64.{ltb_float}
use iot_metrics.Go.Outcome.{ok}
use iot_metrics.Go.Time.{unix}
use iot_metrics.Sqlite.Queries
use iot_metrics.Sqlite.Repository.{
  device_repository, save_device_metric, get_device_config, save_device_alert, to_alert,
}
use iot_metrics.Sqlite.Repository.Lawful.{to_config, config_at}
use iot_metrics.Sqlite.Repository.Valid.{save_alert, save_metric, after_call, IsReachable, call}
use iot_metrics.Sqlite.Tables.{Row, AlertValues, ConfigValues, Db, insert_row}

abbrev pub alert_if : Bool → Alert → List Alert
alert_if true a = a ∷ []
alert_if false a = []

-- The alerts that a metric raises against thresholds, in the order in which they are saved.
abbrev pub raised : RecordMetricRequest → Config → List Alert
raised req c =
    alert_if (ltb_float c.temperature_threshold req.temperature) (high_alert req c)
    ++ alert_if (ltb_ℤ req.battery c.battery_threshold) (low_alert req c)

abbrev pub save_all : String → List Alert → Db → Db
save_all id [] db = db
save_all id (a ∷ alerts) db = save_all id alerts (after_call (save_alert id a) db)

pub save_all-IsReachable :
    (id : String) (alerts : List Alert) (db : Db)
    → IsReachable db
    → IsReachable (save_all id alerts db)
save_all-IsReachable id [] db h = h
save_all-IsReachable id (a ∷ alerts) db h =
    save_all-IsReachable id alerts _ (call (save_alert id a) h)

-- A row that stands for an alert of a device.
pub record Shows (id : String) (a : Alert) (row : Row AlertValues) : Type 0 where
  pub device : row.device_id ≡ id
  pub timestamp : row.timestamp ≡ unix a.time
  pub alert : to_alert row ≡ record a { time = to_second a.time }

-- A database whose statements run.
abbrev pub sound : Db → Db
sound db = record db { faults = [] }

pub sound-eq : (db : Db) → db.faults ≡ [] → sound db ≡ db
sound-eq db e = ap (λ fs. record db { faults = fs }) (sym e)

abbrev with_alert : String → Alert → Db → Db
with_alert id a db = record db {
  alerts = insert_row id (record { reason = a.reason; desc = a.desc }) (unix a.time) db.alerts;
}

save_alert-sound :
    (id : String) (a : Alert) (db : Db)
    → after_call (save_alert id a) (sound db) ≡ sound (with_alert id a db)
unfolding save_device_alert Queries.save_device_alert
save_alert-sound id a db = refl

pub save_all-sound :
    (id : String) (alerts : List Alert) (db : Db) → (save_all id alerts (sound db)).faults ≡ []
save_all-sound id [] db = refl
save_all-sound id (a ∷ alerts) db =
    ap (λ (d : Db). (save_all id alerts d).faults) (save_alert-sound id a db)
    ∙ save_all-sound id alerts (with_alert id a db)

save_all-keeps :
    (id : String) (alerts : List Alert) (db : Db) (row : Row AlertValues)
    → In row db.alerts.rows
    → In row (save_all id alerts (sound db)).alerts.rows
unfolding insert_row
save_all-keeps id [] db row h = h
save_all-keeps id (a ∷ alerts) db row h =
    subst (λ (d : Db). In row (save_all id alerts d).alerts.rows) (sym (save_alert-sound id a db))
      (save_all-keeps id alerts (with_alert id a db) row (In-append_left row db.alerts.rows _ h))

-- A row of the database that stands for an alert of a device.
abbrev pub Shown : String → Alert → Db → Type 0
Shown id a db = (row : Row AlertValues) × In row db.alerts.rows × Shows id a row

-- The alert that is saved first has the next row.
first-Shown :
    (id : String) (a : Alert) (alerts : List Alert) (db : Db)
    → Shown id a (save_all id alerts (sound (with_alert id a db)))
unfolding insert_row
first-Shown id a alerts db = (
  _,
  save_all-keeps id alerts (with_alert id a db) _ (In-append_right _ db.alerts.rows _ (inl refl)),
  record { device = refl; timestamp = refl; alert = refl },
)

-- Every alert that is saved has a row.
pub save_all-Shown :
    (id : String) (alerts : List Alert) (db : Db) (a : Alert)
    → In a alerts
    → Shown id a (save_all id alerts (sound db))
save_all-Shown id [] db a h = absurd h
save_all-Shown id (first ∷ alerts) db a h =
    subst (λ (d : Db). Shown id a (save_all id alerts d)) (sym (save_alert-sound id first db))
      (elim h [
        | inl e ↦
            subst (λ b. Shown id b (save_all id alerts (sound (with_alert id first db)))) (sym e)
              (first-Shown id first alerts db)
        | inr later ↦ save_all-Shown id alerts (with_alert id first db) a later
      ])

abbrev pub with_metric : RecordMetricRequest → Db → Db
with_metric req db = record db {
  metrics =
      insert_row req.device_id (record { temperature = req.temperature; battery = req.battery })
        (unix req.timestamp) db.metrics;
}

pub with_metric-IsReachable :
    (req : RecordMetricRequest) (db : Db)
    → Queries.is_null req.temperature ≡ false
    → IsReachable (sound db)
    → IsReachable (sound (with_metric req db))
unfolding save_device_metric Queries.save_device_metric
with_metric-IsReachable req db number h =
    subst IsReachable saved (call (save_metric req.device_id (metric_of req)) h)
  where
    saved :
        after_call (save_metric req.device_id (metric_of req)) (sound db)
        ≡ sound (with_metric req db)
    saved = rw (after_call, number) refl

-- Recording the metric succeeds, and leaves it and the alerts that it raises against `c`.
abbrev pub Saves : RecordMetricRequest → Config → World Db → Type 0
Saves req c w =
    ((record_metric device_repository req w).0 ≡ ok tt)
    × ((record_metric device_repository req w).1.repo
        ≡ save_all req.device_id (raised req c) (sound (with_metric req w.repo)))

pub record_metric-Saves :
    (req : RecordMetricRequest) (db : Db) (log : List Event) (values : ConfigValues)
    → IsRecordable req
    → Queries.is_null req.temperature ≡ false
    → lookup req.device_id db.configs ≡ some values
    → Saves req (to_config values) (record { repo = sound db; log = log })
unfolding record_metric save_device_metric get_device_config save_device_alert
    Queries.save_device_metric Queries.get_device_config Queries.save_device_alert
record_metric-Saves req db log values valid number found =
    let c = to_config values in
    rw ((validate_record_metric_req_iff req).1 valid, number, found)
      (elim (Bool-cases (ltb_float c.temperature_threshold req.temperature)) [
        | inl hot ↦ elim (Bool-cases (ltb_ℤ req.battery c.battery_threshold)) [
          | inl low ↦ rw (hot, low) (refl, refl)
          | inr charged ↦ rw (hot, charged) (refl, refl)
        ]
        | inr cool ↦ elim (Bool-cases (ltb_ℤ req.battery c.battery_threshold)) [
          | inl low ↦ rw (cool, low) (refl, refl)
          | inr charged ↦ rw (cool, charged) (refl, refl)
        ]
      ])

pub config_read :
    (o : Option ConfigValues) (c : Config)
    → config_at o ≡ some c
    → (values : ConfigValues) × (o ≡ some values) × (to_config values ≡ c)
config_read none c e = cc
config_read (some values) c e = (values, refl, cc)
