-- ===== src/Stress/Jobs/Laws.antt =====
-- What the stress test draws, and that the service accepts what its jobs ask for.
use Prim.Native.String.{◌++◌}
use iot_metrics.Base.{
  ℕ, ◌*◌, ◌<◌, ◌≡◌, refl, subst, ◌≢◌, String, true, false, ℤ, pos, negsuc, wrap_of_Fits, ◌≤ℤ◌, ◌<ℤ◌,
  ◌+ℤ◌, ◌-ℤ◌, to_int32, arith, ◌^◌, List,
}
use iot_metrics.Connect.{DeviceService}
use iot_metrics.Device.Handlers.{to_configure_device, to_record_metric}
use iot_metrics.Device.Proto
use iot_metrics.Device.Validation.Laws.{IsConfigurable, IsRecordable, IsTemperature, IsBattery}
use iot_metrics.Go.Arith.{
  add_float, sub_float, mul_float, round_float, round_magnitude, scale, max_halvings,
}
use iot_metrics.Go.Arith.Bounds.{IsUpTo, scaled-IsUpTo}
use iot_metrics.Go.Errors.{Error}
use iot_metrics.Go.Float64.{Float64, finite, nan, neg_inf, pos_inf, units, of_whole}
use iot_metrics.Go.Fmt.{round_div, print_int}
use iot_metrics.Go.Outcome.{ok}
use iot_metrics.Go.Text.{AllSpace}
use iot_metrics.Go.Time.{Time, zero_time}
use iot_metrics.Log.{Logger, Line}
use iot_metrics.Stress.Jobs.{
  rand_float64, rand_int32, session_id, get_device_id, temp_thresh, battery_thresh,
  configure_request, record_request, configure_job, record_job,
}
use text.Mathlib.TextLemmas.{cons-append}

-- The bounds of the temperatures, 0 and twice 50, as float64.
spans :
    (sub_float (mul_float temp_thresh (of_whole (pos 2))) (of_whole (pos 0))
      ≡ finite false (100 * units))
    × (of_whole (pos 100) ≡ finite false (100 * units))
    × (of_whole (pos 0) ≡ finite false 0)
unfolding of_whole mul_float add_float units round_float round_magnitude scale round_div
    max_halvings
spans = (refl, refl, refl)

IsUpTo-IsTemperature : (x : Float64) → IsUpTo (10000 * units) x → IsTemperature x
IsUpTo-IsTemperature (finite false m) h = h
IsUpTo-IsTemperature (finite true m) h = absurd h
IsUpTo-IsTemperature nan h = absurd h
IsUpTo-IsTemperature neg_inf h = absurd h
IsUpTo-IsTemperature pos_inf h = absurd h

drawn-IsTemperature :
    (d : ℕ)
    → d < units
    → IsTemperature (
        rand_float64 (finite false d) (of_whole (pos 0)) (mul_float temp_thresh (of_whole (pos 2))))
unfolding rand_float64
drawn-IsTemperature d h =
    let (span, hundred, none_at_all) = spans in
    rw (span, hundred, none_at_all) (IsUpTo-IsTemperature _ (scaled-IsUpTo d (omega (arith, h))))

-- What `rand.Int31n` promises.
abbrev pub IsInt31n : (ℤ → ℤ) → Type 0
IsInt31n draw = (n : ℤ) → pos 0 <ℤ n → (pos 0 ≤ℤ draw n) × (draw n <ℤ n)

int_span : to_int32 (pos 100 -ℤ pos 0) ≡ pos 100
unfolding to_int32 ◌-ℤ◌
int_span = refl

zero_plus : (n : ℕ) → (pos 0 +ℤ pos n) ≡ pos n
unfolding ◌+ℤ◌
zero_plus n = ground arith

from_zero : (n : ℕ) → n < 100 → to_int32 (pos 0 +ℤ pos n) ≡ pos n
unfolding to_int32
from_zero n h =
    rw (zero_plus n)
      (wrap_of_Fits (2 ^ 31) (pos n) (record { upper = omega (arith, h); lower = omega arith }))

drawn-IsBattery :
    (draw : ℤ → ℤ)
    → IsInt31n draw
    → (b : ℤ) × (rand_int32 draw (pos 0) (pos 100) ≡ ok b) × IsBattery b
unfolding rand_int32
drawn-IsBattery draw h = go (draw (pos 100)) refl (h (pos 100) (omega arith))
  where
    go :
        (z : ℤ)
        → draw (pos 100) ≡ z
        → (pos 0 ≤ℤ z) × (z <ℤ pos 100)
        → (b : ℤ) × (rand_int32 draw (pos 0) (pos 100) ≡ ok b) × IsBattery b
    go (pos n) e (low, high) = (
      pos n,
      rw (int_span, e, from_zero n (omega (arith, high))) refl,
      record { lowest = omega arith; highest = omega (arith, high) },
    )
    go (negsuc n) e (low, high) = absurd (omega (arith, low))

fifty-IsTemperature : IsTemperature temp_thresh
unfolding of_whole
fifty-IsTemperature = omega arith

fifty-IsBattery : IsBattery battery_thresh
fifty-IsBattery = record { lowest = omega arith; highest = omega arith }

get_device_id-solid : (session : String) (i : ℤ) → ¬ AllSpace (get_device_id session i)
get_device_id-solid session i = solid (session ++ ("-device-" ++ print_int i))
  where
    solid : (rest : String) → ¬ AllSpace ("session-" ++ rest)
    solid rest h = let (first, _) = subst AllSpace (cons-append "s" "ession-" rest) h in cc first

module _ {S : Type 0} (client : DeviceService S) (logger : Logger) (error_text : Error → String)
    (uuid : String) (i : ℤ) where
  -- The jobs of the stress test for a device succeed, whatever package rand draws, if the service accepts
  -- what is configurable and recordable: the requests of the jobs are, if the clock does not show the
  -- zero time.
  pub jobs_succeed :
      (d : ℕ) (draw : ℤ → ℤ) (now : Time) (lines : List Line) (s : S)
      → d < units
      → IsInt31n draw
      → now ≢ zero_time
      → ((msg : Proto.ConfigureDeviceRequest) (t : S)
          → IsConfigurable (to_configure_device msg)
          → (client.configure_device msg t).0 ≡ ok tt)
      → ((msg : Proto.RecordMetricRequest) (t : S)
          → IsRecordable (to_record_metric msg)
          → (client.record_metric msg t).0 ≡ ok tt)
      → ((configure_job client logger error_text (get_device_id (session_id uuid) i) (lines, s)).0
          ≡ ok tt)
        × ((record_job client logger error_text
              (finite false d)
              draw
              (get_device_id (session_id uuid) i)
              now
              (lines, s)).0
            ≡ ok tt)
  unfolding configure_job record_job
  jobs_succeed d draw now lines s below drawn some_time configures records =
      let (battery, is_battery, valid) = drawn-IsBattery draw drawn in
      let solid = get_device_id-solid (session_id uuid) i in
      (
        rw
            (configures (configure_request (get_device_id (session_id uuid) i)) s (record {
              device = solid;
              temperature = fifty-IsTemperature;
              battery = fifty-IsBattery;
            }))
            refl,
        rw
            (
              is_battery,
              records
                  (record_request (get_device_id (session_id uuid) i) now
                    (rand_float64 (finite false d) (of_whole (pos 0))
                      (mul_float temp_thresh (of_whole (pos 2))))
                    battery)
                  s
                  (record {
                    device = solid;
                    timestamp = some_time;
                    temperature = drawn-IsTemperature d below;
                    battery = valid;
                  }),
            )
            refl,
      )
