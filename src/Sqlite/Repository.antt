-- ===== src/Sqlite/Repository.antt =====
-- sqlite/repository.go: `DeviceRepository`, which implements `device.Repository` by the statements.
pub mod Paging
pub mod Listing
pub mod Following
pub mod Walk
pub mod Valid
pub mod Lawful
pub mod Reading
use iot_metrics.Base.{
  ℕ, ◌≡◌, String, Bool, List, [], ◌∷◌, map, Option, none, some, ℤ, pos, ◌+ℤ◌, to_int32, to_int64,
  eqb_ℤ, if◌then◌else◌, length, drop_last, last?,
}
use iot_metrics.Device.Types.{
  RepositoryPageToken, RepositoryPageOptions, RepositoryPage, Config, Metric, Alert, Timeframe,
}
use iot_metrics.Device.Repository.{Repository}
use iot_metrics.Go.Errors.{Error, not_found, is_no_rows}
use iot_metrics.Go.Outcome.{Outcome, ok, err, panic, Call, return, next, ◌>>=◌}
use iot_metrics.Go.Time.{Time, unix, of_unix}
use iot_metrics.Sqlite.Queries
use iot_metrics.Sqlite.Queries.{PageParams}
use iot_metrics.Sqlite.Tables.{Row, MetricValues, AlertValues, ConfigValues, Db}

-- `UpsertDeviceConfig`; `int64(config.BatteryThreshold)` widens.
unfoldable pub upsert_device_config : String → Config → Call Db (Unit {0})
upsert_device_config device_id config = Queries.upsert_device_config device_id (record {
  temperature_threshold = config.temperature_threshold;
  battery_threshold = config.battery_threshold;
})

-- `SaveDeviceMetric`
unfoldable pub save_device_metric : String → Metric → Call Db (Unit {0})
save_device_metric device_id metric =
    Queries.save_device_metric device_id
      (record { temperature = metric.temperature; battery = metric.battery }) (unix metric.time)

-- `SaveDeviceAlert`
unfoldable pub save_device_alert : String → Alert → Call Db (Unit {0})
save_device_alert device_id alert =
    Queries.save_device_alert device_id (record { reason = alert.reason; desc = alert.desc })
      (unix alert.time)

abbrev pub config_result : Outcome ConfigValues × Db → Outcome Config × Db
config_result (ok cfg, db) = (
  ok (record {
    temperature_threshold = cfg.temperature_threshold;
    battery_threshold = to_int32 cfg.battery_threshold;
  }),
  db,
)
config_result (err e, db) = if is_no_rows e then (err not_found, db) else (err e, db)
config_result (panic, db) = (panic, db)

-- `GetDeviceConfig`
unfoldable pub get_device_config : String → Call Db Config
get_device_config device_id db = config_result (Queries.get_device_config device_id db)

-- The cursor of a token. `pageOpts.Token.LastTime.Unix()` dereferences `LastTime`, and panics on nil.
abbrev pub cursor : Option RepositoryPageToken → Outcome (Option ℤ × Option ℤ)
cursor none = ok (none, none)
cursor (some t) = elim t.last_time [ none ↦ panic | some time ↦ ok (some (unix time), t.last_id) ]

abbrev pub unix_of : Option Time → Option ℤ
unix_of none = none
unix_of (some t) = some (unix t)

abbrev pub params_at : String → Timeframe → ℤ → Outcome (Option ℤ × Option ℤ) → Outcome PageParams
params_at device_id timeframe size (ok (last_ts, last_id)) = ok (record {
  device_id = device_id;
  start_ts = unix_of timeframe.start;
  end_ts = unix_of timeframe.end;
  last_ts = last_ts;
  last_id = last_id;
  limit = to_int64 (size +ℤ pos 1);
})
params_at device_id timeframe size (err e) = err e
params_at device_id timeframe size panic = panic

-- The parameters of a page's query, as both getters build them.
unfoldable pub page_params : String → Timeframe → RepositoryPageOptions → Outcome PageParams
page_params device_id timeframe opts = params_at device_id timeframe opts.size (cursor opts.token)

module _ {V : Type 0} where
  abbrev pub token_of : Row V → RepositoryPageToken
  token_of row = record { last_time = some (of_unix row.timestamp); last_id = some row.id }

  abbrev pub with_last :
      List (Row V) → Option (Row V) → Outcome (List (Row V) × Option RepositoryPageToken)
  with_last rows none = panic
  with_last rows (some row) = ok (rows, some (token_of row))

  -- `rows[:len(rows)-1]` panics on no rows, and so does `rows[len(rows)-1]` on what is left of one.
  abbrev pub peeked : List (Row V) → Outcome (List (Row V) × Option RepositoryPageToken)
  peeked [] = panic
  peeked (x ∷ xs) = with_last (drop_last (x ∷ xs)) (last? (drop_last (x ∷ xs)))

  -- The rows of a page without the one that was read ahead, and the token of the next page.
  unfoldable pub split_peeked :
      List (Row V) → ℤ → Outcome (List (Row V) × Option RepositoryPageToken)
  split_peeked rows limit = if eqb_ℤ (pos (length rows)) limit then peeked rows else ok (rows, none)

abbrev pub to_metric : Row MetricValues → Metric
to_metric row = record {
  temperature = row.values.temperature;
  battery = to_int32 row.values.battery;
  time = of_unix row.timestamp;
}

abbrev pub to_alert : Row AlertValues → Alert
to_alert row = record {
  reason = row.values.reason;
  desc = row.values.desc;
  time = of_unix row.timestamp;
}

-- The page of rows, each turned into an item by `f`.
abbrev pub paged :
    {V A : Type 0}
    → (Row V → A)
    → Outcome (List (Row V) × Option RepositoryPageToken)
    → Outcome (RepositoryPage A)
paged f (ok (rows, token)) = ok (record { items = map f rows; next_page_token = token })
paged f (err e) = err e
paged f panic = panic

abbrev pub pure : {A : Type 0} → Outcome A → Call Db A
pure o db = (o, db)

-- `GetDeviceMetrics`
unfoldable pub get_device_metrics :
    String → Timeframe → RepositoryPageOptions → Call Db (RepositoryPage Metric)
unfolding page_params
get_device_metrics device_id timeframe opts = do
  params ← pure (page_params device_id timeframe opts)
  rows ← Queries.get_device_metrics params
  pure (paged to_metric (split_peeked rows params.limit))

-- `GetDeviceAlerts`
unfoldable pub get_device_alerts :
    String → Timeframe → RepositoryPageOptions → Call Db (RepositoryPage Alert)
unfolding page_params
get_device_alerts device_id timeframe opts = do
  params ← pure (page_params device_id timeframe opts)
  rows ← Queries.get_device_alerts params
  pure (paged to_alert (split_peeked rows params.limit))

-- `NewDeviceRepository`
abbrev pub device_repository : Repository
device_repository = record {
  State = Db;
  upsert_device_config = upsert_device_config;
  save_device_metric = save_device_metric;
  get_device_metrics = get_device_metrics;
  get_device_config = get_device_config;
  save_device_alert = save_device_alert;
  get_device_alerts = get_device_alerts;
}
