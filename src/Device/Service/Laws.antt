-- ===== src/Device/Service/Laws.antt =====
-- The service over any lawful repository: what a call leaves in the store, on every ending.
use iot_metrics.Base.{
  ◌≡◌, refl, sym, ap, subst, ◌∙◌, ◌⊎◌, inl, inr, String, true, false, ◌∷◌, none, some, Option-cases,
}
use iot_metrics.Device.Repository.{
  Repository, Store, Writes, Finds, put_config, add_metric, IsLawful,
}
use iot_metrics.Device.Service.{
  World, configured_device, recorded_metric, inside, lift, info, config_of, metric_of,
  configure_device, evaluate, after_config, record_metric,
}
use iot_metrics.Device.Service.Evaluation.{
  with_high, with_low, Fits-battery, Evaluated, evaluate-Evaluated,
}
use iot_metrics.Device.Types.{Config, zero_config, ConfigureDeviceRequest, RecordMetricRequest}
use iot_metrics.Device.Validation.{validate_configure_device_req, validate_record_metric_req}
use iot_metrics.Device.Validation.Laws.{
  IsConfigurable, validate_configure_device_req_iff, IsRecordable, validate_record_metric_req_iff,
}
use iot_metrics.Go.Errors.{Error, is_not_found}
use iot_metrics.Go.Outcome.{Outcome, ok, err, panic, err_injective, next, wrap_error, ◌>>◌}

module _ (r : Repository) (lawful : IsLawful r) where
  open lawful use {view}

  -- The thresholds that a metric is held against: the device's, or zeros if reading them from the state
  -- `s` failed.
  abbrev pub Held : String → Store → r.State → Config → Type 0
  Held id st s c =
      (st.config id ≡ some c)
      ⊎ ((c ≡ zero_config)
          × ((e : Error) × ((r.get_device_config id s).0 ≡ err e) × (is_not_found e ≡ false)))

  -- How recording a metric ends, over the store `st`, if saving the metric leaves the state `s`.
  abbrev pub Recorded :
      RecordMetricRequest → Store → r.State → Outcome (Unit {0}) × World r.State → Type 0
  Recorded req st s (ok _, w) =
      let st' = add_metric req.device_id (metric_of req) st in
      IsRecordable req
      × (((st.config req.device_id ≡ none) × (view w.repo ≡ st'))
          ⊎ ((c : Config) × Held req.device_id st s c
              × (view w.repo ≡ with_low req c (with_high req c st'))))
  Recorded req st s (err _, w) =
      let st' = add_metric req.device_id (metric_of req) st in
      (view w.repo ≡ st)
      ⊎ ((view w.repo ≡ st')
          ⊎ ((c : Config) × Held req.device_id st s c × (view w.repo ≡ with_high req c st')))
  Recorded req st s (panic, w) = ⊥

  Held-Recorded :
      (req : RecordMetricRequest) (st : Store) (s : r.State) (c : Config)
      (x : Outcome (Unit {0}) × World r.State)
      → IsRecordable req
      → Held req.device_id st s c
      → Evaluated r lawful req c (add_metric req.device_id (metric_of req) st) x
      → Recorded req st s x
  Held-Recorded req st s c (ok _, w) valid held e = (valid, inr (c, held, e))
  Held-Recorded req st s c (err _, w) valid held (inl e) = inr (inl e)
  Held-Recorded req st s c (err _, w) valid held (inr e) = inr (inr (c, held, e))
  Held-Recorded req st s c (panic, w) valid held e = absurd e

  -- The thresholds `c` were read or defaulted, and left the store as it was.
  evaluated-Recorded :
      (req : RecordMetricRequest) (st : Store) (s : r.State) (c : Config) (w : World r.State)
      → IsRecordable req
      → Held req.device_id st s c
      → view w.repo ≡ add_metric req.device_id (metric_of req) st
      → Recorded req st s (evaluate r req c w)
  evaluated-Recorded req st s c w valid held e = Held-Recorded req st s c _ valid held (
      subst (λ before. Evaluated r lawful req c before (evaluate r req c w)) e
        (evaluate-Evaluated r lawful req c w))

  module _ (req : RecordMetricRequest) (st : Store) (w : World r.State) (valid : IsRecordable req)
      (saved : view w.repo ≡ add_metric req.device_id (metric_of req) st) where
    config_kept : (view w.repo).config req.device_id ≡ st.config req.device_id
    config_kept = ap (λ (s : Store). s.config req.device_id) saved

    not_found-Recorded :
        (e : Error) (t : r.State)
        → is_not_found e ≡ true
        → (view w.repo).config req.device_id ≡ none
        → view t ≡ view w.repo
        → Recorded req st w.repo (after_config r req (err e, record w { repo = t }))
    unfolding after_config
    not_found-Recorded e t absent missing same =
        rw absent (valid, inl (sym config_kept ∙ missing, same ∙ saved))

    failed-Recorded :
        (e : Error) (t : r.State)
        → (r.get_device_config req.device_id w.repo).0 ≡ err e
        → is_not_found e ≡ false
        → view t ≡ view w.repo
        → Recorded req st w.repo (after_config r req (err e, record w { repo = t }))
    unfolding after_config
    failed-Recorded e t failed other same = rw other (
        evaluated-Recorded req st w.repo zero_config (record w { repo = t }) valid
          (inr (refl, (e, failed, other))) (same ∙ saved))

    config-Recorded :
        (x : Outcome Config × r.State)
        → r.get_device_config req.device_id w.repo ≡ x
        → Finds view req.device_id w.repo x
        → Recorded req st w.repo (after_config r req (inside w x))
    unfolding after_config
    config-Recorded (ok cfg, t) read (same, inl (c, is_c, found)) =
        evaluated-Recorded req st w.repo cfg (record w { repo = t }) valid
          (inl (sym config_kept ∙ found ∙ cc)) (same ∙ saved)
    config-Recorded (ok cfg, t) read (same, inr (e, is_e, _)) = cc
    config-Recorded (err e, t) read (same, inl (c, is_c, _)) = cc
    config-Recorded (err e, t) read (same, inr (e', is_e, inl (absent, missing))) =
        not_found-Recorded e t (ap is_not_found (err_injective is_e) ∙ absent) missing same
    config-Recorded (err e, t) read (same, inr (e', is_e, inr other)) =
        failed-Recorded e t (ap (λ (y : Outcome Config × r.State). y.0) read)
          (ap is_not_found (err_injective is_e) ∙ other) same
    config-Recorded (panic, t) read (same, inl (c, is_c, _)) = cc
    config-Recorded (panic, t) read (same, inr (e, is_e, _)) = cc

  metric-Recorded :
      (req : RecordMetricRequest) (w : World r.State) (x : Outcome (Unit {0}) × r.State)
      → IsRecordable req
      → Writes view (add_metric req.device_id (metric_of req)) w.repo x
      → Recorded req (view w.repo) x.1 (
          next (wrap_error "save device metric" (inside w x)) λ _. do
            info (recorded_metric req.device_id req.timestamp req.temperature req.battery)
            λ v. after_config r req (lift (r.get_device_config req.device_id) v))
  metric-Recorded req w (ok _, t) valid (inl h) =
      let e = recorded_metric req.device_id req.timestamp req.temperature req.battery in
      config-Recorded req (view w.repo) (record { repo = t; log = e ∷ w.log }) valid h.1 _ refl
        (lawful.get_device_config_lem req.device_id t)
  metric-Recorded req w (ok _, t) valid (inr h) = cc
  metric-Recorded req w (err _, t) valid (inl h) = cc
  metric-Recorded req w (err _, t) valid (inr h) = inl h.2
  metric-Recorded req w (panic, t) valid (inl h) = cc
  metric-Recorded req w (panic, t) valid (inr h) = cc

  -- However recording a metric ends, over a lawful repository. It never panics. On success the
  -- request was recordable, the metric is saved, and the alerts of just those of the device's
  -- thresholds that it breaches are saved after it, first the temperature's; none, if the device has
  -- no thresholds. If reading the thresholds right after the save failed, zeros take their place. On an error the store is
  -- as before, or holds the metric alone, or also the alert of a breached temperature threshold.
  pub record_metric-Recorded :
      (req : RecordMetricRequest) (w : World r.State)
      → Recorded req
          (view w.repo)
          (r.save_device_metric req.device_id (metric_of req) w.repo).1
          (record_metric r req w)
  unfolding record_metric
  record_metric-Recorded req w = elim (Option-cases (validate_record_metric_req req)) [
    | inl accepted ↦
        let valid = (validate_record_metric_req_iff req).0 accepted in
        rw accepted (
          metric-Recorded req w (r.save_device_metric req.device_id (metric_of req) w.repo) valid (
            lawful.save_device_metric_lem req.device_id (metric_of req) w.repo
              (Fits-battery req.battery valid.battery)))
    | inr (e, rejected) ↦ rw rejected (inl refl)
  ]

  -- How configuring a device ends.
  abbrev pub Configured :
      ConfigureDeviceRequest → World r.State → Outcome (Unit {0}) × World r.State → Type 0
  Configured req w (ok _, w') =
      IsConfigurable req
      × (view w'.repo ≡ put_config req.device_id (config_of req) (view w.repo))
      × (w'.log
          ≡ configured_device req.device_id req.temperature_threshold req.battery_threshold ∷ w.log)
  Configured req w (err _, w') = (view w'.repo ≡ view w.repo) × (w'.log ≡ w.log)
  Configured req w (panic, w') = ⊥

  config_written :
      (req : ConfigureDeviceRequest) (w : World r.State) (x : Outcome (Unit {0}) × r.State)
      → IsConfigurable req
      → Writes view (put_config req.device_id (config_of req)) w.repo x
      → Configured req w (
          next (wrap_error "upsert device config" (inside w x)) λ _.
            info (configured_device req.device_id req.temperature_threshold req.battery_threshold))
  config_written req w (ok _, t) valid (inl h) = (valid, h.1, refl)
  config_written req w (ok _, t) valid (inr h) = cc
  config_written req w (err _, t) valid (inl h) = cc
  config_written req w (err _, t) valid (inr h) = (h.2, refl)
  config_written req w (panic, t) valid (inl h) = cc
  config_written req w (panic, t) valid (inr h) = cc

  -- However configuring a device ends, over a lawful repository. It never panics. On success the
  -- request was acceptable, the thresholds replace the device's, whatever they were, those of other
  -- devices stay, and one line is logged; on an error neither the store nor the log changes.
  pub configure_device-Configured :
      (req : ConfigureDeviceRequest) (w : World r.State)
      → Configured req w (configure_device r req w)
  unfolding configure_device
  configure_device-Configured req w = elim (Option-cases (validate_configure_device_req req)) [
    | inl accepted ↦
        let valid = (validate_configure_device_req_iff req).0 accepted in
        rw accepted (
          config_written req w _ valid (
            lawful.upsert_device_config_lem req.device_id (config_of req) w.repo
              (Fits-battery req.battery_threshold valid.battery)))
    | inr (e, rejected) ↦ rw rejected (refl, refl)
  ]
