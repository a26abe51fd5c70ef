-- ===== src/Device/Repository.antt =====
-- The interface `device.Repository`, and what its clients may rely on: an abstract store that each
-- call reads or changes, or leaves alone when it fails.
use iot_metrics.Base.{
  ◌^◌, Fits, ◌≡◌, ◌⊎◌, String, true, false, List, [], ◌∷◌, ◌++◌, Option, none, some, if◌then◌else◌,
}
use iot_metrics.Go.Errors.{Error, is_not_found}
use iot_metrics.Go.Outcome.{Outcome, ok, err, Call}
use iot_metrics.Go.Time.{Time, unix, of_unix}
use iot_metrics.Device.Types.{
  Config, Metric, Alert, Timeframe, RepositoryPage, RepositoryPageOptions,
}
use text.Mathlib.Text.{◌==◌}

pub record Repository : Type 1 where
  pub State : Type 0
  pub upsert_device_config : String → Config → Call State (Unit {0})
  pub save_device_metric : String → Metric → Call State (Unit {0})
  pub get_device_metrics :
      String → Timeframe → RepositoryPageOptions → Call State (RepositoryPage Metric)
  pub get_device_config : String → Call State Config
  pub save_device_alert : String → Alert → Call State (Unit {0})
  pub get_device_alerts :
      String → Timeframe → RepositoryPageOptions → Call State (RepositoryPage Alert)

-- The data of every device, oldest first.
pub record Store : Type 0 where
  pub config : String → Option Config
  pub metrics : String → List Metric
  pub alerts : String → List Alert

-- `f`, with the value at `id` replaced.
abbrev pub at {ℓ} : {A : Type ℓ} → String → A → (String → A) → String → A
at id a f other = if id == other then a else f other

-- Times are kept to the second.
abbrev pub to_second : Time → Time
to_second t = of_unix (unix t)

abbrev pub put_config : String → Config → Store → Store
put_config id c st = record st { config = at id (some c) st.config }

abbrev pub add_metric : String → Metric → Store → Store
add_metric id m st = record st {
  metrics = at id (st.metrics id ++ record m { time = to_second m.time } ∷ []) st.metrics;
}

abbrev pub add_alert : String → Alert → Store → Store
add_alert id a st = record st {
  alerts = at id (st.alerts id ++ record a { time = to_second a.time } ∷ []) st.alerts;
}

module _ {S : Type 0} (view : S → Store) where
  -- A write either makes its change or fails and changes nothing.
  abbrev pub Writes : (Store → Store) → S → Outcome (Unit {0}) × S → Type 0
  Writes f s (o, t) =
      ((o ≡ ok tt) × (view t ≡ f (view s))) ⊎ ((e : Error) × (o ≡ err e) × (view t ≡ view s))

  -- Reading a configuration finds it, reports it missing, or fails for another reason.
  abbrev pub Finds : String → S → Outcome Config × S → Type 0
  Finds id s (o, t) =
      (view t ≡ view s)
      × (((c : Config) × (o ≡ ok c) × ((view s).config id ≡ some c))
          ⊎ ((e : Error) × (o ≡ err e)
              × (((is_not_found e ≡ true) × ((view s).config id ≡ none))
                  ⊎ (is_not_found e ≡ false))))

-- A battery level is an `int32`, which the first two laws ask for.
pub record IsLawful (r : Repository) : Type 0 where
  pub view : r.State → Store
  pub upsert_device_config_lem :
      (id : String) (c : Config) (s : r.State)
      → Fits (2 ^ 31) c.battery_threshold
      → Writes view (put_config id c) s (r.upsert_device_config id c s)
  pub save_device_metric_lem :
      (id : String) (m : Metric) (s : r.State)
      → Fits (2 ^ 31) m.battery
      → Writes view (add_metric id m) s (r.save_device_metric id m s)
  pub save_device_alert_lem :
      (id : String) (a : Alert) (s : r.State)
      → Writes view (add_alert id a) s (r.save_device_alert id a s)
  pub get_device_config_lem :
      (id : String) (s : r.State) → Finds view id s (r.get_device_config id s)
