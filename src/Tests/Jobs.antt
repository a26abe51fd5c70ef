-- ===== src/Tests/Jobs.antt =====
-- The jobs of the stress test at concrete draws, and the arithmetic of float64 at concrete values.
use iot_metrics.Base.{◌≡◌, refl, ℤ, false, pos, ◌<◌, ◌-◌, ◌^◌, arith, []}
use iot_metrics.Connect.{DeviceService}
use iot_metrics.Go.Arith.{
  add_float, mul_float, div_float, trunc, of_int, round_float, round_magnitude, scale, max_halvings,
}
use iot_metrics.Go.Float64.{finite, units, of_whole}
use iot_metrics.Go.Fmt.{round_div}
use iot_metrics.Go.Outcome.{ok}
use iot_metrics.Main.{logger_of}
use iot_metrics.Config.{default_config}
use iot_metrics.Stress.Jobs.{rand_float64, get_device_id, session_id, configure_job, record_job}
use iot_metrics.Stress.Jobs.Laws.{IsInt31n, jobs_succeed}
use iot_metrics.Tests.Samples.{at_second, sample_metric-IsRecordable}

-- A client whose service accepts all.
abbrev accepting : DeviceService (Unit {0})
accepting = record {
  record_metric = λ msg s. (ok tt, s);
  configure_device = λ msg s. (ok tt, s);
  get_device_alerts = λ msg s. (ok (record { alerts = []; next_page_token = "" }), s);
}

-- Every draw is the smallest that is allowed.
abbrev draw : ℤ → ℤ
draw n = pos 0

draw-IsInt31n : IsInt31n draw
draw-IsInt31n n h = (omega arith, h)

some_units : 5 < units
unfolding units
some_units = omega arith

jobs_succeed_example :
    ((configure_job accepting
        (logger_of default_config)
        (λ e. "")
        (get_device_id (session_id "1b9d6bcd-bbfd-4b2d") (pos 3))
        ([], tt)).0
      ≡ ok tt)
    × ((record_job accepting
          (logger_of default_config)
          (λ e. "")
          (finite false 5)
          draw
          (get_device_id (session_id "1b9d6bcd-bbfd-4b2d") (pos 3))
          (at_second 9)
          ([], tt)).0
        ≡ ok tt)
jobs_succeed_example =
    jobs_succeed accepting (logger_of default_config) (λ e. "") "1b9d6bcd-bbfd-4b2d" (pos 3) 5 draw
      (at_second 9) [] tt some_units draw-IsInt31n sample_metric-IsRecordable.timestamp
      (λ msg s h. refl) (λ msg s h. refl)

-- 0.5 gives 50.
half_test :
    rand_float64
      (div_float (of_int (pos 1)) (of_int (pos 2)))
      (of_whole (pos 0))
      (of_whole (pos 100))
    ≡ of_whole (pos 50)
unfolding rand_float64 div_float of_int of_whole add_float mul_float trunc units round_float
    round_magnitude scale round_div max_halvings
half_test = refl

-- 0.1 + 0.2 is not 0.3.
sum_test :
    add_float
      (div_float (of_int (pos 1)) (of_int (pos 10)))
      (div_float (of_int (pos 2)) (of_int (pos 10)))
    ≡ add_float (div_float (of_int (pos 3)) (of_int (pos 10))) (finite false (2 ^ (1074 - 54)))
unfolding div_float of_int add_float units round_float round_magnitude scale round_div max_halvings
sum_test = refl
