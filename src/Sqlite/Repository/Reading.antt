-- ===== src/Sqlite/Repository/Reading.antt =====
-- `GetDeviceConfig` of sqlite/repository.go: its answer, from the thresholds that are stored and the failure
-- that is in store for its statement.
use iot_metrics.Base.{◌≡◌, refl, ◌⊎◌, inl, inr, String, List, [], ◌∷◌, Option, none, some}
use iot_metrics.Device.Types.{Config}
use iot_metrics.Go.Dict.{lookup}
use iot_metrics.Go.Errors.{not_found, is_no_rows}
use iot_metrics.Go.Outcome.{Outcome, ok, err}
use iot_metrics.Sqlite.Queries
use iot_metrics.Sqlite.Repository.{get_device_config, config_result}
use iot_metrics.Sqlite.Repository.Lawful.{view_db}
use iot_metrics.Sqlite.Tables.{ConfigValues, Db, Fault, fault_error, run_next}

-- The failure in store for the next statement.
abbrev pub next_fault : List (Option Fault) → Option Fault
next_fault [] = none
next_fault (f ∷ rest) = f

-- The thresholds that a device has, or the error of package device for having none.
abbrev pub answer_of : Option Config → Outcome Config
answer_of none = err not_found
answer_of (some c) = ok c

abbrev pub Reads : String → Db → Outcome Config × Db → Type 0
Reads id db (o, t) =
    (view_db t ≡ view_db db)
    × (((f : Fault) × (next_fault db.faults ≡ some f) × (o ≡ err (fault_error f)))
        ⊎ ((next_fault db.faults ≡ none) × (o ≡ answer_of ((view_db db).config id))))

read_config :
    (id : String) (db : Db) (faults : List (Option Fault)) (found : Option ConfigValues)
    → lookup id db.configs ≡ found
    → let x = config_result (Queries.one_row found, record db { faults = faults }) in
      (view_db x.1 ≡ view_db db) × (x.0 ≡ answer_of ((view_db db).config id))
unfolding view_db is_no_rows
read_config id db faults none e = (refl, rw e refl)
read_config id db faults (some c) e = (refl, rw e refl)

fail_config :
    (db : Db) (rest : List (Option Fault)) (fault : Fault)
    → let x = config_result (err (fault_error fault), record db { faults = rest }) in
      (view_db x.1 ≡ view_db db) × (x.0 ≡ err (fault_error fault))
unfolding view_db is_no_rows
fail_config db rest Fault.context_canceled = (refl, refl)
fail_config db rest (Fault.failure text) = (refl, refl)

-- GetDeviceConfig changes nothing. If a failure is in store for its statement it fails with that; otherwise
-- it gives the device's thresholds where it has some, and `ErrRepoItemNotFound` where it has none.
pub get_device_config-Reads : (id : String) (db : Db) → Reads id db (get_device_config id db)
unfolding get_device_config Queries.get_device_config
get_device_config-Reads id db = go db.faults
  where
    go :
        (faults : List (Option Fault))
        → let x =
            config_result (run_next faults (λ d. (Queries.one_row (lookup id d.configs), d)) db) in
          (view_db x.1 ≡ view_db db)
          × (((f : Fault) × (next_fault faults ≡ some f) × (x.0 ≡ err (fault_error f)))
              ⊎ ((next_fault faults ≡ none) × (x.0 ≡ answer_of ((view_db db).config id))))
    go [] = let (same, e) = read_config id db db.faults _ refl in (same, inr (refl, e))
    go (none ∷ rest) = let (same, e) = read_config id db rest _ refl in (same, inr (refl, e))
    go (some f ∷ rest) = let (same, e) = fail_config db rest f in (same, inl (f, refl, e))
