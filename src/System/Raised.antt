-- ===== src/System/Raised.antt =====
-- device/service.go over sqlite/repository.go: an alert that a metric raises, from the call that
-- records the metric to the pages that a client reads.
use iot_metrics.Base.{
  ℕ, ◌≡◌, refl, sym, ap, subst, ◌∙◌, ◌<◌, Bool, true, false, List, [], map, some, ltb_ℤ, In, In-map,
  All-In, All, All-append, length,
}
use iot_metrics.Device.PageToken.{TokenJson, IsTokenJson}
use iot_metrics.Device.Repository.{to_second}
use iot_metrics.Device.Service.{World, record_metric, high_alert, low_alert, timeframe_of}
use iot_metrics.Device.Types.{Config, RecordMetricRequest, GetDeviceAlertsRequest, Alert}
use iot_metrics.Device.Validation.Laws.{IsQueryable, IsRecordable}
use iot_metrics.Go.Float64.{ltb_float}
use iot_metrics.Go.Outcome.{ok}
use iot_metrics.Go.Time.{unix}
use iot_metrics.Sqlite.Queries
use iot_metrics.Sqlite.Repository.{device_repository, to_alert}
use iot_metrics.Sqlite.Repository.Lawful.{view_db}
use iot_metrics.Sqlite.Repository.Listing.{IsListing, From, Until}
use iot_metrics.Sqlite.Repository.Valid.{IsReachable}
use iot_metrics.Sqlite.Tables.{Row, AlertValues, Db}
use iot_metrics.System.Alerts.{Encodes, walk_pages, walk_pages_all}
use iot_metrics.System.Saved.{
  alert_if, raised, save_all, save_all-IsReachable, sound, sound-eq, save_all-sound, Shown,
  save_all-Shown, with_metric, with_metric-IsReachable, Saves, record_metric-Saves, config_read,
}

All-alert_if : (P : Alert → Type 0) (test : Bool) (a : Alert) → P a → All P (alert_if test a)
All-alert_if P true a p = (p, tt)
All-alert_if P false a p = tt

module _ (j : TokenJson) (lawful : IsTokenJson j) (req : RecordMetricRequest)
    (query : GetDeviceAlertsRequest) (c : Config) where
  -- The pages of the query hold every alert that the metric raises.
  abbrev pub FindsRaised : ℕ → World Db → Type 0
  FindsRaised fuel w =
      (found : List Alert) × (walk_pages j query fuel "" w ≡ (ok found, w))
      × ((a : Alert) → In a (raised req c) → In (record a { time = to_second a.time }) found)

  -- Rows that stand for the alerts are within the query.
  Shown-found :
      (db : Db) (a : Alert) (found : List (Row AlertValues))
      → query.device_id ≡ req.device_id
      → From query.timeframe_start (unix a.time)
      → Until query.timeframe_end (unix a.time)
      → IsListing query.device_id (timeframe_of query) db.alerts.rows found
      → Shown req.device_id a db
      → In (record a { time = to_second a.time }) (map to_alert found)
  Shown-found db a found same from until listed (row, stored, shows) =
      subst (λ b. In b (map to_alert found)) shows.alert
        (In-map to_alert row found (
          (listed.complete row).1 (
            stored,
            record {
              device = shows.device ∙ sym same;
              from = subst (From query.timeframe_start) (sym shows.timestamp) from;
              until = subst (Until query.timeframe_end) (sym shows.timestamp) until;
            },
          )))

  abbrev HasTime : Alert → Type 0
  HasTime a = a.time ≡ req.timestamp

  -- All that the metric raises has the metric's time.
  raised_times : All HasTime (raised req c)
  raised_times =
      let hot = ltb_float c.temperature_threshold req.temperature in
      let low = ltb_ℤ req.battery c.battery_threshold in
      All-append HasTime (alert_if hot (high_alert req c)) (alert_if low (low_alert req c))
        (All-alert_if HasTime hot (high_alert req c) refl)
        (All-alert_if HasTime low (low_alert req c) refl)

  found_after :
      (w : World Db) (fuel : ℕ) (db : Db)
      → w.repo ≡ save_all req.device_id (raised req c) (sound db)
      → IsReachable (sound db)
      → IsQueryable query
      → query.device_id ≡ req.device_id
      → From query.timeframe_start (unix req.timestamp)
      → Until query.timeframe_end (unix req.timestamp)
      → Encodes j w.repo.alerts.rows
      → length w.repo.alerts.rows < fuel
      → FindsRaised fuel w
  found_after w fuel db e reached accepted same from until encodes enough =
      let saved = save_all-IsReachable req.device_id (raised req c) (sound db) reached in
      let (rows, listed, walked) =
        walk_pages_all j lawful query w fuel accepted
          (ap (λ (d : Db). d.faults) e ∙ save_all-sound req.device_id (raised req c) db)
          (subst IsReachable (sym e) saved) encodes enough in
      (
        map to_alert rows,
        walked,
        λ a h.
            let time = All-In HasTime (raised req c) a raised_times h in
            Shown-found w.repo a rows same
              (subst (λ t. From query.timeframe_start (unix t)) (sym time) from)
              (subst (λ t. Until query.timeframe_end (unix t)) (sym time) until) listed
              (subst (Shown req.device_id a) (sym e)
                (save_all-Shown req.device_id (raised req c) db a h)),
      )

  -- An acceptable metric of a device with thresholds, its temperature a number, is recorded as a
  -- success if no statement fails, and every alert that it raises against them, for a temperature
  -- above the one and a battery below the other, is among the alerts that the client then finds by
  -- following the page tokens of the device's alerts over a timeframe that meets its second, its
  -- time cut to the second. The database is one that calls of the repository have made, the tokens
  -- of its alerts are encoded, and the client may ask for more pages than there are alerts.
  pub raised_alerts_found :
      (w : World Db) (fuel : ℕ)
      → w.repo.faults ≡ []
      → IsReachable w.repo
      → (view_db w.repo).config req.device_id ≡ some c
      → IsRecordable req
      → Queries.is_null req.temperature ≡ false
      → IsQueryable query
      → query.device_id ≡ req.device_id
      → From query.timeframe_start (unix req.timestamp)
      → Until query.timeframe_end (unix req.timestamp)
      → Encodes j (record_metric device_repository req w).1.repo.alerts.rows
      → length (record_metric device_repository req w).1.repo.alerts.rows < fuel
      → ((record_metric device_repository req w).0 ≡ ok tt)
        × FindsRaised fuel (record_metric device_repository req w).1
  unfolding view_db
  raised_alerts_found w fuel no_faults reached has valid number accepted same from until encodes
        enough =
      let (values, found, is_c) = config_read _ c has in
      let (recorded, saved) =
        subst (Saves req c) (ap (λ db. record w { repo = db }) (sound-eq w.repo no_faults)) (
          subst (λ c. Saves req c (record w { repo = sound w.repo })) is_c
            (record_metric-Saves req w.repo w.log values valid number found)) in
      (
        recorded,
        found_after _ fuel (with_metric req w.repo) saved
            (with_metric-IsReachable req w.repo number
              (subst IsReachable (sym (sound-eq w.repo no_faults)) reached))
            accepted same from until encodes enough,
      )
