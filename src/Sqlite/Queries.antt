-- ===== src/Sqlite/Queries.antt =====
-- sqlite/sqlc/device.sql.go: the statements of sqlite/queries/device.sql over the tables.
pub mod Order
use iot_metrics.Base.{
  ℕ, zero, ◌≡◌, String, Bool, true, false, ◌&&◌, ◌||◌, List, [], ◌∷◌, Option, none, some, ℤ, pos,
  negsuc, ltb_ℤ, leb_ℤ, eqb_ℤ, if◌then◌else◌, keep, take,
}
use iot_metrics.Go.Dict.{lookup, insert}
use iot_metrics.Go.Errors.{no_rows, other}
use iot_metrics.Go.Float64.{Float64, nan, neg_inf, pos_inf, finite}
use iot_metrics.Go.Outcome.{Outcome, ok, err, Call}
use iot_metrics.Sqlite.Tables.{
  Row, MetricValues, AlertValues, ConfigValues, Table, insert_row, Db, statement,
}
use text.Mathlib.Text.{◌==◌}

-- `GetDeviceAlertsParams` and `GetDeviceMetricsParams`
pub record PageParams : Type 0 where
  pub device_id : String
  pub start_ts : Option ℤ
  pub end_ts : Option ℤ
  pub last_ts : Option ℤ
  pub last_id : Option ℤ
  pub limit : ℤ

-- `CAST(?2 AS INTEGER) IS NULL OR timestamp >= ?2`
abbrev pub from_start : Option ℤ → ℤ → Bool
from_start none ts = true
from_start (some s) ts = leb_ℤ s ts

-- `CAST(?3 AS INTEGER) IS NULL OR timestamp <= ?3`
abbrev pub to_end : Option ℤ → ℤ → Bool
to_end none ts = true
to_end (some e) ts = leb_ℤ ts e

-- `CAST(?5 AS INTEGER) IS NULL OR id < ?5`
abbrev pub below_id : Option ℤ → ℤ → Bool
below_id none id = true
below_id (some l) id = ltb_ℤ id l

-- The composite cursor.
abbrev pub past_cursor : Option ℤ → Option ℤ → ℤ → ℤ → Bool
past_cursor none last_id ts id = true
past_cursor (some l) last_id ts id = ltb_ℤ ts l || (eqb_ℤ ts l && below_id last_id id)

module _ {V : Type 0} where
  unfoldable pub in_window : String → Option ℤ → Option ℤ → Row V → Bool
  in_window device_id start_ts end_ts row =
      row.device_id == device_id && from_start start_ts row.timestamp && to_end end_ts row.timestamp

  unfoldable pub after_cursor : Option ℤ → Option ℤ → Row V → Bool
  after_cursor last_ts last_id row = past_cursor last_ts last_id row.timestamp row.id

  -- `ORDER BY timestamp DESC, id DESC`: `a` comes before `b`.
  unfoldable pub before : Row V → Row V → Bool
  before a b = ltb_ℤ b.timestamp a.timestamp || (eqb_ℤ a.timestamp b.timestamp && ltb_ℤ b.id a.id)

  unfoldable pub place : Row V → List (Row V) → List (Row V)
  place x [] = x ∷ []
  place x (y ∷ ys) = if before x y then x ∷ y ∷ ys else y ∷ place x ys

  unfoldable pub order_by : List (Row V) → List (Row V)
  order_by [] = []
  order_by (x ∷ xs) = place x (order_by xs)

  -- `LIMIT`: a negative number is no limit.
  unfoldable pub limited : ℤ → List (Row V) → List (Row V)
  limited (pos n) rows = take n rows
  limited (negsuc n) rows = rows

  unfoldable pub select_page : PageParams → List (Row V) → List (Row V)
  unfolding in_window after_cursor order_by place before limited
  select_page p rows = limited p.limit (
      order_by (
        keep
          (λ row.
            in_window p.device_id p.start_ts p.end_ts row && after_cursor p.last_ts p.last_id row)
          rows))

-- `GetDeviceAlerts`
unfoldable pub get_device_alerts : PageParams → Call Db (List (Row AlertValues))
get_device_alerts p = statement λ db. (ok (select_page p db.alerts.rows), db)

-- `GetDeviceMetrics`
unfoldable pub get_device_metrics : PageParams → Call Db (List (Row MetricValues))
get_device_metrics p = statement λ db. (ok (select_page p db.metrics.rows), db)

abbrev pub one_row : Option ConfigValues → Outcome ConfigValues
one_row none = err no_rows
one_row (some c) = ok c

-- `GetDeviceConfig`
unfoldable pub get_device_config : String → Call Db ConfigValues
get_device_config device_id = statement λ db. (one_row (lookup device_id db.configs), db)

-- `SaveDeviceAlert`
unfoldable pub save_device_alert : String → AlertValues → ℤ → Call Db (Unit {0})
save_device_alert device_id values ts =
    statement λ db. (ok tt, record db { alerts = insert_row device_id values ts db.alerts })

-- SQLite stores NaN as NULL, which a column that is `NOT NULL` refuses.
abbrev pub is_null : Float64 → Bool
is_null nan = true
is_null neg_inf = false
is_null pos_inf = false
is_null (finite s m) = false

-- `SaveDeviceMetric`
unfoldable pub save_device_metric : String → MetricValues → ℤ → Call Db (Unit {0})
save_device_metric device_id values ts = statement λ db.
    if is_null values.temperature
    then (err (other "NOT NULL constraint failed: metrics.temperature"), db)
    else (ok tt, record db { metrics = insert_row device_id values ts db.metrics })

-- `UpsertDeviceConfig`
unfoldable pub upsert_device_config : String → ConfigValues → Call Db (Unit {0})
upsert_device_config device_id values = statement λ db.
    if is_null values.temperature_threshold
    then (err (other "NOT NULL constraint failed: configs.temperature_threshold"), db)
    else (ok tt, record db { configs = insert device_id values db.configs })
