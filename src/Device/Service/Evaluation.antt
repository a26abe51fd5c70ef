-- ===== src/Device/Service/Evaluation.antt =====
-- The evaluation of a metric against thresholds, over any lawful repository: the alerts that it leaves.
use iot_metrics.Base.{
  ◌≡◌, refl, ap, ◌∙◌, ◌⊎◌, inl, inr, String, ℤ, arith, ltb_ℤ, if◌then◌else◌, Bool-cases, Fits, ◌^◌,
}
use iot_metrics.Device.Repository.{Repository, Store, Writes, add_alert, IsLawful}
use iot_metrics.Device.Service.{
  World, inside, high_alert, low_alert, check_temperature, check_battery, evaluate,
}
use iot_metrics.Device.Types.{Config, RecordMetricRequest}
use iot_metrics.Device.Validation.Laws.{IsBattery}
use iot_metrics.Go.Float64.{ltb_float}
use iot_metrics.Go.Outcome.{Outcome, ok, err, panic, next, wrap_error}

-- A temperature above the threshold is breaching, and so is a battery level below it.
abbrev pub with_high : RecordMetricRequest → Config → Store → Store
with_high req c st =
    if ltb_float c.temperature_threshold req.temperature
    then add_alert req.device_id (high_alert req c) st
    else st

abbrev pub with_low : RecordMetricRequest → Config → Store → Store
with_low req c st =
    if ltb_ℤ req.battery c.battery_threshold
    then add_alert req.device_id (low_alert req c) st
    else st

pub Fits-battery : (b : ℤ) → IsBattery b → Fits (2 ^ 31) b
Fits-battery b h = ground arith

module _ (r : Repository) (lawful : IsLawful r) where
  open lawful use {view}

  unfoldable pub view_world : World r.State → Store
  view_world w = view w.repo

  -- A write of the repository within the service, with its error wrapped.
  pub wrapped_write :
      (text : String) (f : Store → Store) (w : World r.State) (x : Outcome (Unit {0}) × r.State)
      → Writes view f w.repo x
      → Writes view_world f w (wrap_error text (inside w x))
  unfolding view_world
  wrapped_write text f w (ok _, t) (inl h) = inl (refl, h.1)
  wrapped_write text f w (ok _, t) (inr h) = cc
  wrapped_write text f w (err e, t) (inl h) = cc
  wrapped_write text f w (err e, t) (inr h) = inr (_, refl, h.2)
  wrapped_write text f w (panic, t) (inl h) = cc
  wrapped_write text f w (panic, t) (inr h) = cc

  check_temperature-Writes :
      (req : RecordMetricRequest) (c : Config) (w : World r.State)
      → Writes view_world (with_high req c) w (check_temperature r req c w)
  unfolding check_temperature view_world
  check_temperature-Writes req c w =
      elim (Bool-cases (ltb_float c.temperature_threshold req.temperature)) [
        | inl e ↦ rw e (
            wrapped_write _ (add_alert req.device_id (high_alert req c)) _ _
              (lawful.save_device_alert_lem req.device_id (high_alert req c) w.repo))
        | inr e ↦ rw e (inl (refl, refl))
      ]

  check_battery-Writes :
      (req : RecordMetricRequest) (c : Config) (w : World r.State)
      → Writes view_world (with_low req c) w (check_battery r req c w)
  unfolding check_battery view_world
  check_battery-Writes req c w = elim (Bool-cases (ltb_ℤ req.battery c.battery_threshold)) [
    | inl e ↦ rw e (
        wrapped_write _ (add_alert req.device_id (low_alert req c)) _ _
          (lawful.save_device_alert_lem req.device_id (low_alert req c) w.repo))
    | inr e ↦ rw e (inl (refl, refl))
  ]

  -- Both alerts that the thresholds ask for are saved, or an error leaves none or only the first.
  abbrev pub Evaluated :
      RecordMetricRequest → Config → Store → Outcome (Unit {0}) × World r.State → Type 0
  Evaluated req c st (ok _, w) = view w.repo ≡ with_low req c (with_high req c st)
  Evaluated req c st (err e, w) = (view w.repo ≡ st) ⊎ (view w.repo ≡ with_high req c st)
  Evaluated req c st (panic, w) = ⊥

  Evaluated-low :
      (req : RecordMetricRequest) (c : Config) (st : Store) (w : World r.State)
      (x : Outcome (Unit {0}) × World r.State)
      → view w.repo ≡ with_high req c st
      → Writes view_world (with_low req c) w x
      → Evaluated req c st x
  unfolding view_world
  Evaluated-low req c st w (ok _, w') e (inl h) = h.1 ∙ ap (with_low req c) e
  Evaluated-low req c st w (ok _, w') e (inr h) = cc
  Evaluated-low req c st w (err _, w') e (inl h) = cc
  Evaluated-low req c st w (err _, w') e (inr h) = inr (h.2 ∙ e)
  Evaluated-low req c st w (panic, w') e (inl h) = cc
  Evaluated-low req c st w (panic, w') e (inr h) = cc

  Evaluated-high :
      (req : RecordMetricRequest) (c : Config) (w : World r.State)
      (x : Outcome (Unit {0}) × World r.State)
      → Writes view_world (with_high req c) w x
      → Evaluated req c (view w.repo) (next x (λ _. check_battery r req c))
  unfolding view_world
  Evaluated-high req c w (ok _, w') (inl h) =
      Evaluated-low req c (view w.repo) w' _ h.1 (check_battery-Writes req c w')
  Evaluated-high req c w (ok _, w') (inr h) = cc
  Evaluated-high req c w (err _, w') (inl h) = cc
  Evaluated-high req c w (err _, w') (inr h) = inl h.2
  Evaluated-high req c w (panic, w') (inl h) = cc
  Evaluated-high req c w (panic, w') (inr h) = cc

  pub evaluate-Evaluated :
      (req : RecordMetricRequest) (c : Config) (w : World r.State)
      → Evaluated req c (view w.repo) (evaluate r req c w)
  unfolding evaluate
  evaluate-Evaluated req c w = Evaluated-high req c w _ (check_temperature-Writes req c w)
