-- ===== src/Sqlite/Repository/Walk.antt =====
-- A client that follows the page tokens of the repository, from the first page to the last.
use iot_metrics.Base.{
  ℕ, suc, ◌^◌, ◌<◌, ◌≡◌, ap, ◌∙◌, String, List, [], map, none, some, pos, arith, ◌+ℤ◌, to_int64,
  wrap, wrap_of_Fits, length,
}
use iot_metrics.Device.Types.{Timeframe}
use iot_metrics.Go.Outcome.{ok, Call}
use iot_metrics.Sqlite.Queries
use iot_metrics.Sqlite.Queries.{select_page}
use iot_metrics.Sqlite.Queries.Order.{HasKeys}
use iot_metrics.Sqlite.Repository.{to_alert, to_metric, get_device_alerts, get_device_metrics}
use iot_metrics.Sqlite.Repository.Paging.{listing, first_rows, next_rows}
use iot_metrics.Sqlite.Repository.Listing.{IsListing, listing-IsListing, length-listing}
use iot_metrics.Sqlite.Repository.Valid.{IsReachable, IsReachable-IsValid}
use iot_metrics.Sqlite.Tables.{Row, AlertValues, MetricValues, Db, statement, run_next}
use iot_metrics.Sqlite.Repository.Following.{walk, at_start, after_row, Cuts, Walks, walk_rest}

pub page_limit : (n : ℕ) → suc n < 2 ^ 63 → to_int64 (pos n +ℤ pos 1) ≡ pos (suc n)
unfolding to_int64
page_limit n h = ap (wrap (2 ^ 63)) sum ∙ wrap_of_Fits (2 ^ 63) (pos (suc n)) (omega arith)
  where
    sum : pos n +ℤ pos 1 ≡ pos (suc n)
    sum = unfold ◌+ℤ◌ in ground arith

-- With no failure in store a statement runs.
statement_runs :
    {A : Type 0} (body : Call Db A) (db : Db) → db.faults ≡ [] → statement body db ≡ body db
statement_runs body db e = ap (λ faults. run_next faults body db) e

module _ (device_id : String) (tf : Timeframe) (n : ℕ) (in_range : suc n < 2 ^ 63) (db : Db)
    (no_faults : db.faults ≡ []) where
  alerts_query :
      (p : Queries.PageParams)
      → Queries.get_device_alerts p db ≡ (ok (select_page p db.alerts.rows), db)
  unfolding Queries.get_device_alerts
  alerts_query p = statement_runs _ db no_faults

  pub alerts_cut :
      HasKeys db.alerts.rows
      → Cuts to_alert n
          (listing device_id tf db.alerts.rows)
          (λ token. get_device_alerts device_id tf (record { size = pos n; token = token }))
          db
  unfolding get_device_alerts
  alerts_cut keys none _ at_start =
      rw (page_limit n in_range, alerts_query _, first_rows device_id tf (suc n) _ keys)
  alerts_cut keys (some _) rest (after_row front r _ e) =
      rw (
        page_limit n in_range,
        alerts_query _,
        next_rows device_id tf (suc n) _ front r rest keys e,
      )

  metrics_query :
      (p : Queries.PageParams)
      → Queries.get_device_metrics p db ≡ (ok (select_page p db.metrics.rows), db)
  unfolding Queries.get_device_metrics
  metrics_query p = statement_runs _ db no_faults

  metrics_cut :
      HasKeys db.metrics.rows
      → Cuts to_metric n
          (listing device_id tf db.metrics.rows)
          (λ token. get_device_metrics device_id tf (record { size = pos n; token = token }))
          db
  unfolding get_device_metrics
  metrics_cut keys none _ at_start =
      rw (page_limit n in_range, metrics_query _, first_rows device_id tf (suc n) _ keys)
  metrics_cut keys (some _) rest (after_row front r _ e) =
      rw (
        page_limit n in_range,
        metrics_query _,
        next_rows device_id tf (suc n) _ front r rest keys e,
      )

-- Following the page tokens of `GetDeviceAlerts` from the first page, in pages of any size from 1 to
-- 2^63 - 2, gives exactly those of the device's alerts whose second meets the timeframe, the latest
-- first and each once, over any database that calls of the repository have made, if no statement of
-- the walk fails and the client may ask for more pages than there are alerts. An alert is stored with
-- its second, and the timeframe is of its bounds: a start within a second takes in all of that second.
-- The database stays as it is.
pub walk-get_device_alerts :
    (device_id : String) (tf : Timeframe) (n fuel : ℕ) (db : Db)
    → 0 < n
    → suc n < 2 ^ 63
    → db.faults ≡ []
    → IsReachable db
    → length db.alerts.rows < fuel
    → (found : List (Row AlertValues)) × IsListing device_id tf db.alerts.rows found
      × (walk
            (λ token. get_device_alerts device_id tf (record { size = pos n; token = token }))
            fuel
            none
            db
          ≡ (ok (map to_alert found), db))
walk-get_device_alerts device_id tf n fuel db n_pos in_range no_faults reached enough =
    let keys = (IsReachable-IsValid reached).alerts.keys in
    (
      listing device_id tf db.alerts.rows,
      listing-IsListing device_id tf db.alerts.rows keys,
      unfold Walks in
          walk_rest to_alert n n_pos _ _ db (alerts_cut device_id tf n in_range db no_faults keys)
            fuel none _ at_start (omega (arith, length-listing device_id tf db.alerts.rows)),
    )

-- Following the page tokens of `GetDeviceMetrics` gives exactly those of the device's metrics whose
-- second meets the timeframe, the latest first and each once, under the conditions of
-- `walk-get_device_alerts` for the table of metrics. A start within a second takes in all of that
-- second. The database stays as it is.
pub walk-get_device_metrics :
    (device_id : String) (tf : Timeframe) (n fuel : ℕ) (db : Db)
    → 0 < n
    → suc n < 2 ^ 63
    → db.faults ≡ []
    → IsReachable db
    → length db.metrics.rows < fuel
    → (found : List (Row MetricValues)) × IsListing device_id tf db.metrics.rows found
      × (walk
            (λ token. get_device_metrics device_id tf (record { size = pos n; token = token }))
            fuel
            none
            db
          ≡ (ok (map to_metric found), db))
walk-get_device_metrics device_id tf n fuel db n_pos in_range no_faults reached enough =
    let keys = (IsReachable-IsValid reached).metrics.keys in
    (
      listing device_id tf db.metrics.rows,
      listing-IsListing device_id tf db.metrics.rows keys,
      unfold Walks in
          walk_rest to_metric n n_pos _ _ db (metrics_cut device_id tf n in_range db no_faults keys)
            fuel none _ at_start (omega (arith, length-listing device_id tf db.metrics.rows)),
    )
