-- ===== src/Tests/Pool.antt =====
-- The worker pool and the flags of the stress test at concrete inputs.
use iot_metrics.Base.{
  ◌≡◌, refl, ◌≢◌, ◌⊎◌, ◌≤◌, arith, ◌↔◌, String, Bool, true, [], ◌∷◌, none, some, pos, ◌≤ℤ◌, ◌<ℤ◌,
}
use iot_metrics.Stress.{
  WorkerPool, new_worker_pool, IsReachable, start, step, check_open, add, undo, close_pool,
  send_on_jobs,
}
use iot_metrics.Stress.Drain.{closing_ends, steps_left, CanStep, go_on, stay}
use iot_metrics.Stress.Flags.{Flags, parse_flags, parsed, parse_flags-eq-parsed_iff}
use iot_metrics.Stress.Laws.{IsCounted, IsReachable-IsCounted, queue_job_may_panic}

-- A pool of two workers with one caller at its send.
abbrev sending_pool : WorkerPool
sending_pool = record (new_worker_pool 2) { sending = none ∷ []; wg = 1 }

sending_pool-IsReachable : IsReachable 2 sending_pool
sending_pool-IsReachable = step (step start refl (check_open none refl)) refl (add [] none [] refl)

IsReachable-IsCounted_example : IsCounted sending_pool
IsReachable-IsCounted_example = IsReachable-IsCounted sending_pool-IsReachable

queue_job_may_panic_example : (p : WorkerPool) × IsReachable 2 p × (p.panicked ≡ some send_on_jobs)
queue_job_may_panic_example = queue_job_may_panic 2

-- The pool while `Close` runs, and the caller that has given up at its send.
abbrev closing_pool : WorkerPool
closing_pool = record sending_pool { closed = true }

closing_pool-IsReachable : IsReachable 2 closing_pool
closing_pool-IsReachable = step sending_pool-IsReachable refl (close_pool refl)

abbrev quiet_pool : WorkerPool
quiet_pool = record closing_pool { sending = []; wg = 0 }

closing_ends_example :
    (1 ≤ steps_left closing_pool)
    × (CanStep quiet_pool ⊎ (quiet_pool.errs_closed ≡ true) ⊎ (quiet_pool.panicked ≢ none))
closing_ends_example =
    closing_ends (omega arith) closing_pool-IsReachable refl
      (go_on refl (undo [] none [] refl refl) stay)

abbrev sample_flags : Flags
sample_flags = record { service_url = "http://localhost"; num_devices = pos 3; interval_ms = pos 0 }

parse_flags-eq-parsed_iff_example :
    (parse_flags (λ url. true) "http://localhost" (pos 3) (pos 0) ≡ parsed sample_flags) ↔ (
      ((◌≢◌ {A = String} "http://localhost" "") × (◌≡◌ {A = Bool} true true))
      × (pos 0 <ℤ pos 3)
      × (pos 0 ≤ℤ pos 0)
      × (sample_flags ≡ sample_flags))
parse_flags-eq-parsed_iff_example =
    parse_flags-eq-parsed_iff (λ url. true) "http://localhost" (pos 3) (pos 0) sample_flags
