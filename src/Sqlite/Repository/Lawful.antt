-- ===== src/Sqlite/Repository/Lawful.antt =====
-- The repository of package sqlite keeps the laws of the interface that the service relies on.
use iot_metrics.Base.{
  ◌^◌, ◌≡◌, refl, sym, ap, ◌∙◌, fun_ext, inl, inr, String, List, [], ◌∷◌, ◌++◌, map, Option, none,
  some, ℤ, Fits, wrap_of_Fits, to_int32, eq_iff, keep, keep-append, Bool-cases,
}
use iot_metrics.Device.Repository.{
  Store, Writes, Finds, put_config, add_metric, add_alert, at, IsLawful,
}
use iot_metrics.Device.Types.{Config, Metric, Alert}
use iot_metrics.Go.Dict.{lookup, insert, lookup-insert}
use iot_metrics.Go.Errors.{is_not_found, is_no_rows}
use iot_metrics.Go.Outcome.{err, Call}
use iot_metrics.Go.Time.{of_unix, unix}
use iot_metrics.Sqlite.Queries
use iot_metrics.Sqlite.Repository.{
  upsert_device_config, save_device_metric, save_device_alert, get_device_config, config_result,
  to_metric, to_alert, device_repository,
}
use iot_metrics.Sqlite.Tables.{
  Row, ConfigValues, Table, insert_row, Db, Fault, fault_error, statement, run_next,
}
use mathlib.Core.List.{append-nil, map-append}
use text.Mathlib.Text.{◌==◌}

abbrev pub to_config : ConfigValues → Config
to_config c = record {
  temperature_threshold = c.temperature_threshold;
  battery_threshold = to_int32 c.battery_threshold;
}

abbrev with_battery : Config → ℤ → Config
with_battery c b = record c { battery_threshold = b }

Fits-int32 : (z : ℤ) → Fits (2 ^ 31) z → to_int32 z ≡ z
unfolding to_int32
Fits-int32 z f = wrap_of_Fits (2 ^ 31) z f

abbrev pub config_at : Option ConfigValues → Option Config
config_at none = none
config_at (some c) = some (to_config c)

abbrev rows_of : {V : Type 0} → String → List (Row V) → List (Row V)
rows_of id rows = keep (λ row. row.device_id == id) rows

-- The store that a database stands for.
unfoldable pub view_db : Db → Store
view_db db = record {
  config = λ id. config_at (lookup id db.configs);
  metrics = λ id. map to_metric (rows_of id db.metrics.rows);
  alerts = λ id. map to_alert (rows_of id db.alerts.rows);
}

-- A new row shows at its device, behind the device's other rows.
map-rows_of-insert_row :
    {V A : Type 0} (f : Row V → A) (id other : String) (values : V) (ts : ℤ) (t : Table V) (a : A)
    → ((n : ℤ) → f (record { id = n; device_id = id; timestamp = ts; values = values }) ≡ a)
    → map f (rows_of other (insert_row id values ts t).rows)
      ≡ at id (map f (rows_of id t.rows) ++ a ∷ []) (λ k. map f (rows_of k t.rows)) other
unfolding insert_row
map-rows_of-insert_row f id other values ts t a e =
    rw (keep-append (λ row. row.device_id == other) t.rows _) (elim (Bool-cases (id == other)) [
      | inl same ↦ rw same (
          map-append f (rows_of other t.rows) _
          ∙ ap (λ x. map f (rows_of other t.rows) ++ x ∷ []) (e _)
          ∙ ap (λ k. map f (rows_of k t.rows) ++ a ∷ []) (sym ((eq_iff id other).0 same)))
      | inr different ↦ rw different (ap (map f) (append-nil (rows_of other t.rows)))
    ])

-- A statement that may only fail, or make one change to the store.
statement-Writes :
    (f : Store → Store) (body : Call Db (Unit {0})) (db : Db)
    → ((faults : List (Option Fault)) → Writes view_db f db (body (record db { faults = faults })))
    → Writes view_db f db (statement body db)
statement-Writes f body db w = go db.faults
  where
    go : (faults : List (Option Fault)) → Writes view_db f db (run_next faults body db)
    go [] = w db.faults
    go (none ∷ rest) = w rest
    go (some fault ∷ rest) = inr (fault_error fault, refl, unfold view_db in refl)

config_at-insert :
    (id other : String) (values : ConfigValues) (c : Config)
    (configs : List (String × ConfigValues))
    → to_config values ≡ c
    → config_at (lookup other (insert id values configs))
      ≡ at id (some c) (λ k. config_at (lookup k configs)) other
config_at-insert id other values c configs e =
    rw (lookup-insert id other values configs) (elim (Bool-cases (id == other)) [
      | inl same ↦ rw same (ap some e)
      | inr different ↦ rw different
    ])

put_config-eq :
    (id : String) (c : Config) (db : Db)
    → Fits (2 ^ 31) c.battery_threshold
    → (faults : List (Option Fault))
    → view_db (record db {
      configs =
          insert id
            (record {
              temperature_threshold = c.temperature_threshold;
              battery_threshold = c.battery_threshold;
            })
            db.configs;
      faults = faults;
    })
      ≡ put_config id c (view_db db)
unfolding view_db
put_config-eq id c db fits faults =
    ap
      (λ g. record {
        config = g;
        metrics = λ k. map to_metric (rows_of k db.metrics.rows);
        alerts = λ k. map to_alert (rows_of k db.alerts.rows);
      })
      (fun_ext
        λ other. config_at-insert id other _ c db.configs (ap (with_battery c) (Fits-int32 _ fits)))

add_metric-eq :
    (id : String) (m : Metric) (db : Db)
    → Fits (2 ^ 31) m.battery
    → (faults : List (Option Fault))
    → view_db (record db {
      metrics =
          insert_row id
            (record { temperature = m.temperature; battery = m.battery })
            (unix m.time)
            db.metrics;
      faults = faults;
    })
      ≡ add_metric id m (view_db db)
unfolding view_db
add_metric-eq id m db fits faults =
    ap
      (λ g. record {
        config = λ k. config_at (lookup k db.configs);
        metrics = g;
        alerts = λ k. map to_alert (rows_of k db.alerts.rows);
      })
      (fun_ext λ other.
        map-rows_of-insert_row to_metric id other _ (unix m.time) db.metrics
          (record m { time = of_unix (unix m.time) })
          (λ n.
            ap (λ (b : ℤ). record m { battery = b; time = of_unix (unix m.time) })
              (Fits-int32 _ fits)))

add_alert-eq :
    (id : String) (a : Alert) (db : Db) (faults : List (Option Fault))
    → view_db (record db {
      alerts = insert_row id (record { reason = a.reason; desc = a.desc }) (unix a.time) db.alerts;
      faults = faults;
    })
      ≡ add_alert id a (view_db db)
unfolding view_db
add_alert-eq id a db faults =
    ap
      (λ g. record {
        config = λ k. config_at (lookup k db.configs);
        metrics = λ k. map to_metric (rows_of k db.metrics.rows);
        alerts = g;
      })
      (fun_ext λ other.
        map-rows_of-insert_row to_alert id other _ (unix a.time) db.alerts
          (record a { time = of_unix (unix a.time) }) (λ n. refl))

pub upsert_device_config-Writes :
    (id : String) (c : Config) (db : Db)
    → Fits (2 ^ 31) c.battery_threshold
    → Writes view_db (put_config id c) db (upsert_device_config id c db)
unfolding upsert_device_config Queries.upsert_device_config
upsert_device_config-Writes id c db fits = statement-Writes (put_config id c) _ db λ faults.
    elim (Bool-cases (Queries.is_null c.temperature_threshold)) [
      | inl e ↦ rw e (inr (_, refl, unfold view_db in refl))
      | inr e ↦ rw e (inl (refl, put_config-eq id c db fits faults))
    ]

pub save_device_metric-Writes :
    (id : String) (m : Metric) (db : Db)
    → Fits (2 ^ 31) m.battery
    → Writes view_db (add_metric id m) db (save_device_metric id m db)
unfolding save_device_metric Queries.save_device_metric
save_device_metric-Writes id m db fits = statement-Writes (add_metric id m) _ db λ faults.
    elim (Bool-cases (Queries.is_null m.temperature)) [
      | inl e ↦ rw e (inr (_, refl, unfold view_db in refl))
      | inr e ↦ rw e (inl (refl, add_metric-eq id m db fits faults))
    ]

pub save_device_alert-Writes :
    (id : String) (a : Alert) (db : Db)
    → Writes view_db (add_alert id a) db (save_device_alert id a db)
unfolding save_device_alert Queries.save_device_alert
save_device_alert-Writes id a db =
    statement-Writes (add_alert id a) _ db λ faults. inl (refl, add_alert-eq id a db faults)

find_config :
    (id : String) (db : Db) (faults : List (Option Fault)) (found : Option ConfigValues)
    → lookup id db.configs ≡ found
    → Finds view_db id db (config_result (Queries.one_row found, record db { faults = faults }))
unfolding view_db is_no_rows is_not_found
find_config id db faults none e = (refl, inr (_, refl, inl (refl, rw e)))
find_config id db faults (some c) e = (refl, inl (_, refl, rw e))

fail_config :
    (id : String) (db : Db) (rest : List (Option Fault)) (fault : Fault)
    → Finds view_db id db (config_result (err (fault_error fault), record db { faults = rest }))
unfolding view_db is_no_rows is_not_found
fail_config id db rest Fault.context_canceled = (refl, inr (_, refl, inr refl))
fail_config id db rest (Fault.failure text) = (refl, inr (_, refl, inr refl))

pub get_device_config-Finds :
    (id : String) (db : Db) → Finds view_db id db (get_device_config id db)
unfolding get_device_config Queries.get_device_config
get_device_config-Finds id db = go db.faults
  where
    go :
        (faults : List (Option Fault))
        → Finds view_db id db
            (config_result (run_next faults (λ d. (Queries.one_row (lookup id d.configs), d)) db))
    go [] = find_config id db db.faults _ refl
    go (none ∷ rest) = find_config id db rest _ refl
    go (some fault ∷ rest) = fail_config id db rest fault

unfoldable pub device_repository-IsLawful : IsLawful device_repository
device_repository-IsLawful = record {
  view = view_db;
  upsert_device_config_lem = upsert_device_config-Writes;
  save_device_metric_lem = save_device_metric-Writes;
  save_device_alert_lem = save_device_alert-Writes;
  get_device_config_lem = get_device_config-Finds;
}
