-- ===== src/Device/Validation/Laws.antt =====
-- What the validators of device/validation.go accept, said without them.
use iot_metrics.Base.{
  ◌*◌, ◌≤◌, ◌≡◌, refl, ◌≢◌, ◌↔◌, ◌⊎◌, String, Bool, true, false, Option, none, some, ℤ, pos, arith,
  ◌≤ℤ◌, ◌<ℤ◌, ltb_ℤ, eq_iff,
}
use mathlib.Core.Bool.{false≢true}
use iot_metrics.Device.Types.{ConfigureDeviceRequest, RecordMetricRequest, GetDeviceAlertsRequest}
use iot_metrics.Device.Validation.{
  is_blank, min_temperature, max_temperature, temperature_outside, battery_outside,
  configure_device_checks, record_metric_checks, check_start, check_end, get_device_alerts_checks,
  validate_configure_device_req, validate_record_metric_req, validate_get_device_alerts_req,
}
use iot_metrics.Go.Float64.{Float64, nan, neg_inf, pos_inf, finite, units, ltb_float}
use iot_metrics.Go.Text.{trim_space, trim_space-eq-nil_iff, AllSpace}
use iot_metrics.Go.Time.{Time, zero_time, is_zero, after}
use iot_metrics.Http.Validator.{
  RequestValidator, new_request_validator, check, IsClean, check-IsClean_iff, error-eq-none_iff,
}
use text.Mathlib.Text.{◌==◌}

-- A temperature from -10000 to 10000, or NaN, which no comparison finds outside.
abbrev pub IsTemperature : Float64 → Type 0
IsTemperature nan = Unit
IsTemperature neg_inf = ⊥
IsTemperature pos_inf = ⊥
IsTemperature (finite s m) = m ≤ 10000 * units

pub record IsBattery (b : ℤ) : Type 0 where
  pub lowest : pos 0 ≤ℤ b
  pub highest : b ≤ℤ pos 100

temperature_outside_iff : (t : Float64) → (temperature_outside t ≡ false) ↔ IsTemperature t
unfolding min_temperature max_temperature ltb_float
temperature_outside_iff nan = ground arith
temperature_outside_iff neg_inf = ground arith
temperature_outside_iff pos_inf = ground arith
temperature_outside_iff (finite s m) = ground arith

battery_outside_iff : (b : ℤ) → (battery_outside b ≡ false) ↔ IsBattery b
battery_outside_iff b = ground arith

false_iff : {P : Type 0} (b : Bool) → (b ≡ true) ↔ P → (b ≡ false) ↔ (¬ P)
false_iff true e = (λ h. cc, λ n. absurd (n (e.0 refl)))
false_iff false e = (λ h p. false≢true (e.1 p), λ n. refl)

is_blank_iff : (s : String) → (is_blank s ≡ false) ↔ (¬ AllSpace s)
unfolding is_blank
is_blank_iff s = false_iff (trim_space s == "") (
  λ h. (trim_space-eq-nil_iff s).0 ((eq_iff (trim_space s) "").0 h),
  λ h. (eq_iff (trim_space s) "").1 ((trim_space-eq-nil_iff s).1 h),
)

is_zero_eq : (t : Time) → is_zero t ≡ true → t ≡ zero_time
unfolding is_zero
is_zero_eq t h = ground arith

is_zero-zero_time : is_zero zero_time ≡ true
unfolding is_zero
is_zero-zero_time = refl

is_zero_iff : (t : Time) → (is_zero t ≡ false) ↔ (t ≢ zero_time)
is_zero_iff t = false_iff (is_zero t) (is_zero_eq t, λ e. rw e is_zero-zero_time)

-- A check added to a validator whose state so far is known.
checked :
    {P Q : Type 0} (v : RequestValidator) (name : String) (condition : Bool) (msg : String)
    → IsClean v ↔ P
    → (condition ≡ false) ↔ Q
    → IsClean (check v name condition msg) ↔ (P × Q)
checked v name condition msg p q = (
  λ h. let (before, now) = (check-IsClean_iff v name condition msg).0 h in (p.0 before, q.0 now),
  λ h. (check-IsClean_iff v name condition msg).1 (p.1 h.0, q.1 h.1),
)

new-IsClean : IsClean new_request_validator ↔ Unit {0}
new-IsClean = (λ h. tt, λ h. refl)

-- What a configuration must be to be accepted.
pub record IsConfigurable (req : ConfigureDeviceRequest) : Type 0 where
  pub device : ¬ AllSpace req.device_id
  pub temperature : IsTemperature req.temperature_threshold
  pub battery : IsBattery req.battery_threshold

-- `validateConfigureDeviceReq` accepts a request exactly if its device id is not blank, its
-- temperature threshold is from -10000 to 10000 or NaN, and its battery threshold from 0 to 100.
pub validate_configure_device_req_iff :
    (req : ConfigureDeviceRequest) → (validate_configure_device_req req ≡ none) ↔ IsConfigurable req
unfolding validate_configure_device_req
validate_configure_device_req_iff req = (
  λ h.
      let c = checks.0 ((error-eq-none_iff _).0 h) in
      record { device = c.0.0.1; temperature = c.0.1; battery = c.1 },
  λ r. (error-eq-none_iff _).1 (checks.1 (((tt, r.device), r.temperature), r.battery)),
)
  where
    checks : IsClean (configure_device_checks req) ↔ (
        ((Unit {0} × (¬ AllSpace req.device_id)) × IsTemperature req.temperature_threshold)
        × IsBattery req.battery_threshold)
    checks =
        checked _ _ _ _
          (checked _ _ _ _
            (checked new_request_validator _ _ _ new-IsClean (is_blank_iff req.device_id))
            (temperature_outside_iff req.temperature_threshold))
          (battery_outside_iff req.battery_threshold)

-- What a metric must be to be accepted.
pub record IsRecordable (req : RecordMetricRequest) : Type 0 where
  pub device : ¬ AllSpace req.device_id
  pub timestamp : req.timestamp ≢ zero_time
  pub temperature : IsTemperature req.temperature
  pub battery : IsBattery req.battery

-- `validateRecordMetricReq` accepts a request exactly if its device id is not blank, its timestamp
-- is not the zero time, its temperature is from -10000 to 10000 or NaN, and its battery level from
-- 0 to 100.
pub validate_record_metric_req_iff :
    (req : RecordMetricRequest) → (validate_record_metric_req req ≡ none) ↔ IsRecordable req
unfolding validate_record_metric_req
validate_record_metric_req_iff req = (
  λ h.
      let c = checks.0 ((error-eq-none_iff _).0 h) in
      record { device = c.0.0.0.1; timestamp = c.0.0.1; temperature = c.0.1; battery = c.1 },
  λ r.
      (error-eq-none_iff _).1
        (checks.1 ((((tt, r.device), r.timestamp), r.temperature), r.battery)),
)
  where
    checks : IsClean (record_metric_checks req) ↔ (
        (((Unit {0} × (¬ AllSpace req.device_id)) × (req.timestamp ≢ zero_time))
          × IsTemperature req.temperature)
        × IsBattery req.battery)
    checks =
        checked _ _ _ _
          (checked _ _ _ _
            (checked _ _ _ _
              (checked new_request_validator _ _ _ new-IsClean (is_blank_iff req.device_id))
              (is_zero_iff req.timestamp))
            (temperature_outside_iff req.temperature))
          (battery_outside_iff req.battery)

-- An instant is no later than another.
abbrev pub IsNotAfter : Time → Time → Type 0
IsNotAfter t u = (t.secs <ℤ u.secs) ⊎ ((t.secs ≡ u.secs) × (t.nanos ≤ u.nanos))

after_iff : (t u : Time) → (after t u ≡ false) ↔ IsNotAfter t u
unfolding after
after_iff t u = ground arith

-- The bounds of a timeframe are not the zero time, and in order where both are given.
abbrev pub IsStart : Option Time → Option Time → Type 0
IsStart none end = Unit
IsStart (some start) none = start ≢ zero_time
IsStart (some start) (some end) = (start ≢ zero_time) × IsNotAfter start end

abbrev pub IsEnd : Option Time → Type 0
IsEnd none = Unit
IsEnd (some end) = end ≢ zero_time

IsStart-checked :
    {P : Type 0} (v : RequestValidator) (start end : Option Time)
    → IsClean v ↔ P
    → IsClean (check_start v start end) ↔ (P × IsStart start end)
unfolding check_start
IsStart-checked v none end p = (λ h. (p.0 h, tt), λ h. p.1 h.0)
IsStart-checked v (some start) none p = checked v _ _ _ p (is_zero_iff start)
IsStart-checked v (some start) (some end) p =
    let c = checked _ _ _ _ (checked v _ _ _ p (is_zero_iff start)) (after_iff start end) in
    (λ h. let k = c.0 h in (k.0.0, (k.0.1, k.1)), λ h. c.1 ((h.0, h.1.0), h.1.1))

IsEnd-checked :
    {P : Type 0} (v : RequestValidator) (end : Option Time)
    → IsClean v ↔ P
    → IsClean (check_end v end) ↔ (P × IsEnd end)
unfolding check_end
IsEnd-checked v none p = (λ h. (p.0 h, tt), λ h. p.1 h.0)
IsEnd-checked v (some end) p = checked v _ _ _ p (is_zero_iff end)

page_size_iff : (size : ℤ) → (ltb_ℤ size (pos 0) ≡ false) ↔ (pos 0 ≤ℤ size)
page_size_iff size = ground arith

-- What a request for alerts must be to be accepted.
pub record IsQueryable (req : GetDeviceAlertsRequest) : Type 0 where
  pub device : ¬ AllSpace req.device_id
  pub start : IsStart req.timeframe_start req.timeframe_end
  pub end : IsEnd req.timeframe_end
  pub page_size : pos 0 ≤ℤ req.page_size

-- `validateGetDeviceAlertsReq` accepts a request exactly if its device id is not blank, no bound of
-- its timeframe is the zero time, the start is not after the end where both are given, so that one that
-- equals the end is accepted, and the page size is not negative.
pub validate_get_device_alerts_req_iff :
    (req : GetDeviceAlertsRequest) → (validate_get_device_alerts_req req ≡ none) ↔ IsQueryable req
unfolding validate_get_device_alerts_req
validate_get_device_alerts_req_iff req = (
  λ h.
      let c = checks.0 ((error-eq-none_iff _).0 h) in
      record { device = c.0.0.0.1; start = c.0.0.1; end = c.0.1; page_size = c.1 },
  λ r. (error-eq-none_iff _).1 (checks.1 ((((tt, r.device), r.start), r.end), r.page_size)),
)
  where
    checks : IsClean (get_device_alerts_checks req) ↔ (
        (((Unit {0} × (¬ AllSpace req.device_id)) × IsStart req.timeframe_start req.timeframe_end)
          × IsEnd req.timeframe_end)
        × (pos 0 ≤ℤ req.page_size))
    checks =
        checked _ _ _ _
          (IsEnd-checked _ _ (
            IsStart-checked _ _ _
              (checked new_request_validator _ _ _ new-IsClean (is_blank_iff req.device_id))))
          (page_size_iff req.page_size)
