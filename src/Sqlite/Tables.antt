-- ===== src/Sqlite/Tables.antt =====
-- sqlite/migrations/0001_tables.up.sql and sqlite/sqlc/models.go: the three tables. A database also
-- holds the failures that its environment has in store, one entry for each coming statement.
use iot_metrics.Base.{ℕ, suc, String, List, [], ◌∷◌, ◌++◌, Option, none, some, ℤ, pos}
use iot_metrics.Go.Errors.{Error, canceled, other}
use iot_metrics.Go.Float64.{Float64}
use iot_metrics.Go.Outcome.{err, Call}

-- A row of `metrics` or `alerts`: the columns that both have, and the others.
pub record Row (V : Type 0) : Type 0 where
  pub id : ℤ
  pub device_id : String
  pub timestamp : ℤ
  pub values : V

pub record MetricValues : Type 0 where
  pub temperature : Float64
  pub battery : ℤ

pub record AlertValues : Type 0 where
  pub reason : String
  pub desc : String

pub record ConfigValues : Type 0 where
  pub temperature_threshold : Float64
  pub battery_threshold : ℤ

-- `id INTEGER PRIMARY KEY AUTOINCREMENT`: `seq` is the largest id that was ever given.
pub record Table (V : Type 0) : Type 0 where
  pub rows : List (Row V)
  pub seq : ℕ

-- `INSERT INTO … VALUES …`
unfoldable pub insert_row : {V : Type 0} → String → V → ℤ → Table V → Table V
insert_row device_id values timestamp t = record {
  rows =
      t.rows
      ++ record {
        id = pos (suc t.seq);
        device_id = device_id;
        timestamp = timestamp;
        values = values;
      }
        ∷ [];
  seq = suc t.seq;
}

-- Why a statement may fail, whatever it says: its context was canceled, or the driver reports an
-- error (a locked database, a full disk).
pub data Fault : Type 0 where
  context_canceled : Fault
  failure : String → Fault

abbrev pub fault_error : Fault → Error
fault_error context_canceled = canceled
fault_error (failure text) = other text

pub record Db : Type 0 where
  -- `device_id` is the primary key.
  pub configs : List (String × ConfigValues)
  pub metrics : Table MetricValues
  pub alerts : Table AlertValues
  pub faults : List (Option Fault)

abbrev pub run_next : {A : Type 0} → List (Option Fault) → Call Db A → Call Db A
run_next [] body db = body db
run_next (none ∷ rest) body db = body (record db { faults = rest })
run_next (some f ∷ rest) body db = (err (fault_error f), record db { faults = rest })

-- A statement runs as a whole, or fails and changes nothing.
abbrev pub statement : {A : Type 0} → Call Db A → Call Db A
statement body db = run_next db.faults body db

abbrev pub empty_table : {V : Type 0} → Table V
empty_table = record { rows = []; seq = 0 }

-- The database after the migrations.
abbrev pub migrated : Db
migrated = record { configs = []; metrics = empty_table; alerts = empty_table; faults = [] }
