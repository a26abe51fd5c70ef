-- ===== src/Stress/Jobs.antt =====
-- cmd/stress/main.go: the random values and the jobs of the stress test. The numbers that package rand draws,
-- and the texts of errors, are parameters.
pub mod Laws
use Prim.Native.String.{◌++◌}
use iot_metrics.Base.{
  ℕ, zero, suc, String, not, keep, some, ℤ, pos, List, [], ◌∷◌, ◌+ℤ◌, ◌-ℤ◌, leb_ℤ, to_int32,
  if◌then◌else◌,
}
use iot_metrics.Connect.{DeviceService}
use iot_metrics.Device.Proto
use iot_metrics.Go.Arith.{add_float, sub_float, mul_float, div_float, trunc}
use iot_metrics.Go.Errors.{Error, other, wrapped, is_canceled}
use iot_metrics.Go.Float64.{Float64, of_whole}
use iot_metrics.Go.Fmt.{print_int}
use iot_metrics.Go.Outcome.{Outcome, ok, err, panic, Call}
use iot_metrics.Go.Strings.{before_first}
use iot_metrics.Go.Time.{Time}
use iot_metrics.Log.{Logger, Line, Attr, write, level_info, text_value, float_value, number_value}

-- `randFloat64`, where `rand.Float64()` gives `draw`; `math.Pow(10, float64(2))` is 100.
unfoldable pub rand_float64 : Float64 → Float64 → Float64 → Float64
rand_float64 draw min max =
    let f = add_float min (mul_float draw (sub_float max min)) in
    let scale = of_whole (pos 100) in div_float (trunc (mul_float f scale)) scale

-- `randInt32`, where `rand.Int31n(n)` gives `draw n`, and panics unless `n` is positive.
unfoldable pub rand_int32 : (ℤ → ℤ) → ℤ → ℤ → Outcome ℤ
rand_int32 draw min max =
    let n = to_int32 (max -ℤ min) in
    if leb_ℤ n (pos 0) then panic else ok (to_int32 (min +ℤ draw n))

-- `sessionID`, of a new UUID
abbrev pub session_id : String → String
session_id uuid = before_first "-" uuid

-- `getDeviceID`
abbrev pub get_device_id : String → ℤ → String
get_device_id session i = "session-" ++ (session ++ ("-device-" ++ print_int i))

-- `tempThresh` and `batteryThresh`
abbrev pub temp_thresh : Float64
temp_thresh = of_whole (pos 50)

abbrev pub battery_thresh : ℤ
battery_thresh = pos 50

-- The request that configures a device.
abbrev pub configure_request : String → Proto.ConfigureDeviceRequest
configure_request device_id = record {
  device_id = device_id;
  temperature_threshold = temp_thresh;
  battery_threshold = battery_thresh;
}

-- The request that records a metric, for the current time and the values drawn.
abbrev pub record_request : String → Time → Float64 → ℤ → Proto.RecordMetricRequest
record_request device_id now temperature battery = record {
  device_id = device_id;
  temperature = temperature;
  battery = battery;
  timestamp = some now;
}

-- What a job ends with: no error, or one; a panic ends the program.
abbrev pub JobCall : Type 0 → Type 0
JobCall S = Call (List Line × S) (Unit {0})

-- A call of the client within a job, which writes no line.
abbrev called : {S : Type 0} → Call S (Unit {0}) → JobCall S
called f (lines, s) = let (o, s') = f s in (o, (lines, s'))

-- `if err != nil { return … }`, and the line and nil otherwise.
abbrev job_end :
    {S : Type 0}
    → Logger
    → (Error → Error)
    → String
    → List Attr
    → Outcome (Unit {0}) × (List Line × S)
    → Outcome (Unit {0}) × (List Line × S)
job_end logger describe message attrs (ok _, (lines, s)) =
    (ok tt, (write logger level_info message attrs lines, s))
job_end logger describe message attrs (err e, s) = (err (describe e), s)
job_end logger describe message attrs (panic, s) = (panic, s)

module _ {S : Type 0} (client : DeviceService S) (logger : Logger)
    (error_text : Error → String) where
  -- The job that configures a device; the text of the error goes into another.
  unfoldable pub configure_job : String → JobCall S
  configure_job device_id s =
      job_end logger (λ e. other ("configure device '" ++ (device_id ++ ("': " ++ error_text e))))
        "configure device"
        (("device_id", text_value device_id)
          ∷ ("temperature_threshold", float_value temp_thresh)
          ∷ ("battery_threshold", number_value battery_thresh)
          ∷ [])
        (called (client.configure_device (configure_request device_id)) s)

  -- The job behind the draw of a battery level.
  abbrev record_drawn : String → Time → Float64 → Outcome ℤ → JobCall S
  record_drawn device_id now temperature (ok battery) s =
      job_end logger (λ e. wrapped ("record device '" ++ (device_id ++ "' metric")) e)
        "recorded device metric"
        (("device_id", text_value device_id)
          ∷ ("temperature", float_value temperature)
          ∷ ("battery", number_value battery)
          ∷ [])
        (called (client.record_metric (record_request device_id now temperature battery)) s)
  record_drawn device_id now temperature (err e) s = (err e, s)
  record_drawn device_id now temperature panic s = (panic, s)

  -- The job that records a metric of a device, for what package rand draws.
  unfoldable pub record_job : Float64 → (ℤ → ℤ) → String → Time → JobCall S
  record_job draw_float draw_int device_id now =
      record_drawn device_id now
        (rand_float64 draw_float (of_whole (pos 0)) (mul_float temp_thresh (of_whole (pos 2))))
        (rand_int32 draw_int (pos 0) (pos 100))

-- The device ids of `for i := range f.numDevices`, from `i` on.
unfoldable pub device_ids : String → ℕ → ℕ → List String
device_ids session i zero = []
device_ids session i (suc left) = get_device_id session (pos i) ∷ device_ids session (suc i) left

-- The errors of the pool that `run` logs.
unfoldable pub logged_errors : List Error → List Error
logged_errors errs = keep (λ e. not (is_canceled e)) errs
