-- ===== src/Sqlite/Repository/Valid.antt =====
-- The ids of a table: every call of the repository keeps them distinct.
use iot_metrics.Base.{
  ℕ, suc, ◌≡◌, ◌≢◌, String, List, [], ◌∷◌, ◌++◌, Option, none, some, ℤ, pos, arith, ◌≤ℤ◌, All,
  All-append, All-map, Bool-cases, inl, inr,
}
use iot_metrics.Device.Types.{Config, Metric, Alert, Timeframe, RepositoryPageOptions}
use iot_metrics.Go.Outcome.{Outcome, ok, err, panic, Call, next}
use iot_metrics.Go.Errors.{is_no_rows}
use iot_metrics.Sqlite.Queries
use iot_metrics.Sqlite.Queries.Order.{HasKeys}
use iot_metrics.Sqlite.Repository.{
  upsert_device_config, save_device_metric, save_device_alert, get_device_config,
  get_device_metrics, get_device_alerts, config_result, page_params, pure,
}
use iot_metrics.Sqlite.Tables.{
  Row, ConfigValues, Table, insert_row, Db, Fault, statement, run_next, migrated,
}

-- The ids are distinct, and none is above the largest that was given.
pub record IsValidTable {V : Type 0} (t : Table V) : Type 0 where
  pub below : All (λ row. row.id ≤ℤ pos t.seq) t.rows
  pub keys : HasKeys t.rows

pub record IsValid (db : Db) : Type 0 where
  pub metrics : IsValidTable db.metrics
  pub alerts : IsValidTable db.alerts

HasKeys-concat :
    {V : Type 0} (rows : List (Row V)) (row : Row V)
    → HasKeys rows
    → All (λ r. r.id ≢ row.id) rows
    → HasKeys (rows ++ row ∷ [])
HasKeys-concat [] row k d = (tt, tt)
HasKeys-concat (r ∷ rows) row k d =
    (All-append (λ y. r.id ≢ y.id) rows (row ∷ []) k.0 (d.0, tt), HasKeys-concat rows row k.1 d.1)

above : (id : ℤ) (seq : ℕ) → id ≤ℤ pos seq → id ≡ pos (suc seq) → ⊥
above id seq h e = ground arith

insert_row-IsValidTable :
    {V : Type 0} (device_id : String) (values : V) (timestamp : ℤ) (t : Table V)
    → IsValidTable t
    → IsValidTable (insert_row device_id values timestamp t)
unfolding insert_row
insert_row-IsValidTable device_id values timestamp t v = record {
  below =
      All-append (λ row. row.id ≤ℤ pos (suc t.seq)) t.rows _
        (All-map t.rows (λ row h. omega arith) v.below) (omega arith, tt);
  keys =
      HasKeys-concat t.rows _ v.keys (All-map t.rows (λ row h e. above row.id t.seq h e) v.below);
}

-- A statement whose body keeps a valid database keeps it, failures included.
statement-IsValid :
    {A : Type 0} (body : Call Db A) (db : Db)
    → ((d : Db) → IsValid d → IsValid (body d).1)
    → IsValid db
    → IsValid (statement body db).1
statement-IsValid body db keeps v = go db.faults
  where
    go : (faults : List (Option Fault)) → IsValid (run_next faults body db).1
    go [] = keeps db v
    go (none ∷ rest) =
        keeps (record db { faults = rest }) (record { metrics = v.metrics; alerts = v.alerts })
    go (some f ∷ rest) = record { metrics = v.metrics; alerts = v.alerts }

next-IsValid :
    {A B : Type 0} (r : Outcome A × Db) (k : A → Call Db B)
    → ((a : A) (d : Db) → IsValid d → IsValid (k a d).1)
    → IsValid r.1
    → IsValid (next r k).1
next-IsValid (ok a, d) k keeps v = keeps a d v
next-IsValid (err e, d) k keeps v = v
next-IsValid (panic, d) k keeps v = v

config_result-IsValid : (r : Outcome ConfigValues × Db) → IsValid r.1 → IsValid (config_result r).1
config_result-IsValid (ok cfg, d) v = v
config_result-IsValid (err e, d) v = elim (Bool-cases (is_no_rows e)) [
  | inl h ↦ rw h v
  | inr h ↦ rw h v
]
config_result-IsValid (panic, d) v = v

-- A call of the repository.
pub data RepositoryCall : Type 0 where
  upsert_config : String → Config → RepositoryCall
  save_metric : String → Metric → RepositoryCall
  save_alert : String → Alert → RepositoryCall
  get_config : String → RepositoryCall
  get_metrics get_alerts : String → Timeframe → RepositoryPageOptions → RepositoryCall

-- The database after a call, however it ends.
abbrev pub after_call : RepositoryCall → Db → Db
after_call (upsert_config id c) db = (upsert_device_config id c db).1
after_call (save_metric id m) db = (save_device_metric id m db).1
after_call (save_alert id a) db = (save_device_alert id a db).1
after_call (get_config id) db = (get_device_config id db).1
after_call (get_metrics id tf opts) db = (get_device_metrics id tf opts db).1
after_call (get_alerts id tf opts) db = (get_device_alerts id tf opts db).1

-- Every call of the repository, however it ends, keeps the ids of both tables distinct and within
-- what their sequences have given.
pub after_call-IsValid : (c : RepositoryCall) (db : Db) → IsValid db → IsValid (after_call c db)
unfolding upsert_device_config save_device_metric save_device_alert get_device_config
    get_device_metrics get_device_alerts Queries.upsert_device_config Queries.save_device_metric
    Queries.save_device_alert Queries.get_device_config Queries.get_device_metrics
    Queries.get_device_alerts
after_call-IsValid (upsert_config id c) db v =
    statement-IsValid _ db
      (λ d w. elim (Bool-cases (Queries.is_null c.temperature_threshold)) [
        | inl h ↦ rw h w
        | inr h ↦ rw h (record { metrics = w.metrics; alerts = w.alerts })
      ])
      v
after_call-IsValid (save_metric id m) db v =
    statement-IsValid _ db
      (λ d w. elim (Bool-cases (Queries.is_null m.temperature)) [
        | inl h ↦ rw h w
        | inr h ↦ rw h (record {
          metrics = insert_row-IsValidTable _ _ _ d.metrics w.metrics;
          alerts = w.alerts;
        })
      ])
      v
after_call-IsValid (save_alert id a) db v =
    statement-IsValid _ db
      (λ d w. record {
        metrics = w.metrics;
        alerts = insert_row-IsValidTable _ _ _ d.alerts w.alerts;
      })
      v
after_call-IsValid (get_config id) db v =
    config_result-IsValid _ (statement-IsValid _ db (λ d w. w) v)
after_call-IsValid (get_metrics id tf opts) db v =
    next-IsValid (pure (page_params id tf opts) db) _
      (λ p d w.
        next-IsValid (Queries.get_device_metrics p d) _ (λ rows d' w'. w')
          (statement-IsValid _ d (λ d' w'. w') w))
      v
after_call-IsValid (get_alerts id tf opts) db v =
    next-IsValid (pure (page_params id tf opts) db) _
      (λ p d w.
        next-IsValid (Queries.get_device_alerts p d) _ (λ rows d' w'. w')
          (statement-IsValid _ d (λ d' w'. w') w))
      v

migrated-IsValid : IsValid migrated
migrated-IsValid = record {
  metrics = record { below = tt; keys = tt };
  alerts = record { below = tt; keys = tt };
}

-- The databases that calls make of a new one, whatever fails on the way.
pub data IsReachable : Db → Type 0 where
  start : (faults : List (Option Fault)) → IsReachable (record migrated { faults = faults })
  call : {db : Db} (c : RepositoryCall) → IsReachable db → IsReachable (after_call c db)

pub IsReachable-IsValid : {db : Db} → IsReachable db → IsValid db
IsReachable-IsValid (start faults) = record {
  metrics = migrated-IsValid.metrics;
  alerts = migrated-IsValid.alerts;
}
IsReachable-IsValid (call {db} c r) = after_call-IsValid c db (IsReachable-IsValid r)
