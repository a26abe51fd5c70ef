-- ===== src/Tests/Middleware.antt =====
-- A rate limiter, a request logger and a recover interceptor that do what the packages promise, and
-- handlers to put behind them.
use iot_metrics.Base.{refl, ◌≢◌, String, ℕ, ℤ, ◌+◌, Option, none, some, pos, ltb, if◌then◌else◌}
use iot_metrics.Config.{default_config}
use iot_metrics.Go.Errors.{Error, Code, canceled}
use iot_metrics.Go.Outcome.{Outcome, ok, err, panic, Call}
use iot_metrics.Go.Time.{zero_time}
use iot_metrics.Http.Log.{Values, Clock}
use iot_metrics.Log.{Logger}
use iot_metrics.Main.{logger_of}
use iot_metrics.Main.Stacks.{RequestLogger, WithRecover}
use iot_metrics.Main.Stacks.Laws.{
  IsRequestLogger, IsWithRecover, LogsAfter, then_values, recovered_with,
}

-- A limiter that lets the first request through, and counts.
pub one_wait : String → Call ℕ (Unit {0})
one_wait key n = (if ltb n 1 then ok tt else err canceled, n + 1)

posted : Option Error → Values
posted e = record {
  start_time = zero_time;
  method = "POST";
  uri = "/devices/d/metrics";
  status = 201;
  latency = pos 0;
  error = e;
}

log_after : {X A : Type 0} → (Values → Call X (Unit {0})) → Outcome A × X → Outcome A × X
log_after f (ok a, s) = then_values (ok a) (f (posted none) s)
log_after f (err e, s) = then_values (err e) (f (posted (some e)) s)
log_after f (panic, s) = (panic, s)

log_after-LogsAfter :
    {X A : Type 0} (f : Values → Call X (Unit {0})) (x : Outcome A × X)
    → LogsAfter f "POST" x (log_after f x)
unfolding posted log_after
log_after-LogsAfter f (ok a, s) = (posted none, refl, refl, refl)
log_after-LogsAfter f (err e, s) = (posted (some e), refl, refl, refl)
log_after-LogsAfter f (panic, s) = refl

module _ {C X A : Type 0} where
  pub post_logger : RequestLogger C X A
  post_logger f next c s = log_after f (next c s)

  pub post_logger-IsRequestLogger : IsRequestLogger (λ c. "POST") post_logger
  unfolding post_logger
  post_logger-IsRequestLogger f next c s = log_after-LogsAfter f (next c s)

  pub answer_panic : WithRecover C X A
  answer_panic f next c s = recovered_with f (next c s)

  pub answer_panic-IsWithRecover : IsWithRecover answer_panic
  unfolding answer_panic
  answer_panic-IsWithRecover f next c s = refl

abbrev pub logger : Logger
logger = logger_of default_config

pub not_options : ◌≢◌ {A = String} "POST" "OPTIONS"
not_options e = cc

-- A handler that panics, of which no more is known.
pub broken : {S A : Type 0} → ℕ → Call S A
broken c s = (panic, s)

abbrev pub code_number : Code → ℤ
code_number c = pos 13

abbrev pub code_name : Code → String
code_name c = "internal"

abbrev pub clock : Clock
clock = record { start = zero_time; since_start = pos 0 }
