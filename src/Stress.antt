-- ===== src/Stress.antt =====
-- cmd/stress/worker_pool.go: the pool of workers, as the steps that its goroutines may take. A step is one
-- operation on a channel or on the wait group, except that a worker's report of an error goes with the
-- `Done` after it, and closing `errs` with the `Wait` before it. A job is what it returns.
pub mod Laws
pub mod Flags
pub mod Drain
pub mod Jobs
use iot_metrics.Base.{
  ℕ, suc, ◌+◌, ◌-◌, ◌<◌, ◌≡◌, Bool, true, false, List, [], ◌∷◌, ◌++◌, Option, none, some, length,
}
use iot_metrics.Go.Errors.{Error, wrapped}

-- `Job`, as its result
abbrev pub Job : Type 0
Job = Option Error

-- A send on a closed channel.
pub data Panic : Type 0 where
  send_on_jobs send_on_errs : Panic

-- `WorkerPool`, and where its goroutines stand.
pub record WorkerPool : Type 0 where
  pub workers : ℕ
  -- the jobs of callers of `QueueJob` behind its first `select`
  pub checked : List Job
  -- the jobs of callers at its second `select`
  pub sending : List Job
  -- the buffer of `jobs`
  pub jobs : List Job
  -- the jobs that workers run
  pub running : List Job
  -- the errors that workers send
  pub failing : List Error
  -- the buffer of `errs`
  pub errs : List Error
  -- the counter of `wg`
  pub wg : ℕ
  pub closed : Bool
  pub jobs_closed : Bool
  pub errs_closed : Bool
  pub panicked : Option Panic

-- `NewWorkerPool`, started
abbrev pub new_worker_pool : ℕ → WorkerPool
new_worker_pool workers = record {
  workers = workers;
  checked = [];
  sending = [];
  jobs = [];
  running = [];
  failing = [];
  errs = [];
  wg = 0;
  closed = false;
  jobs_closed = false;
  errs_closed = false;
  panicked = none;
}

-- The workers that have a job in hand.
abbrev pub busy : WorkerPool → ℕ
busy p = length p.running + length p.failing

-- One step of a goroutine of the pool that has not panicked.
pub data Step : WorkerPool → WorkerPool → Type 0 where
  -- `QueueJob`: `p.closed` is not ready
  check_open :
      {p : WorkerPool} (j : Job) → p.closed ≡ false → Step p (record p { checked = j ∷ p.checked })
  -- `p.wg.Add(1)`
  add :
      {p : WorkerPool} (a : List Job) (j : Job) (b : List Job)
      → p.checked ≡ a ++ j ∷ b
      → Step p (record p { checked = a ++ b; sending = j ∷ p.sending; wg = suc p.wg })
  -- `case p.jobs <- job`
  send :
      {p : WorkerPool} (a : List Job) (j : Job) (b : List Job)
      → p.sending ≡ a ++ j ∷ b
      → p.jobs_closed ≡ false
      → length p.jobs < p.workers
      → Step p (record p { sending = a ++ b; jobs = p.jobs ++ j ∷ [] })
  -- the same case, if the channel is closed
  send_panics :
      {p : WorkerPool} (a : List Job) (j : Job) (b : List Job)
      → p.sending ≡ a ++ j ∷ b
      → p.jobs_closed ≡ true
      → Step p (record p { sending = a ++ b; panicked = some send_on_jobs })
  -- `case <-p.closed`
  undo :
      {p : WorkerPool} (a : List Job) (j : Job) (b : List Job)
      → p.sending ≡ a ++ j ∷ b
      → p.closed ≡ true
      → Step p (record p { sending = a ++ b; wg = p.wg - 1 })
  -- a worker without a job receives one
  take :
      {p : WorkerPool} (j : Job) (rest : List Job)
      → p.jobs ≡ j ∷ rest
      → busy p < p.workers
      → Step p (record p { jobs = rest; running = j ∷ p.running })
  -- a job returns nil, and `p.wg.Done()`
  done :
      {p : WorkerPool} (a b : List Job)
      → p.running ≡ a ++ none ∷ b
      → Step p (record p { running = a ++ b; wg = p.wg - 1 })
  -- a job returns an error
  fail :
      {p : WorkerPool} (a : List Job) (e : Error) (b : List Job)
      → p.running ≡ a ++ some e ∷ b
      → Step p (record p { running = a ++ b; failing = wrapped "worker job failed" e ∷ p.failing })
  -- `p.errs <- …` and `p.wg.Done()`
  report :
      {p : WorkerPool} (a : List Error) (e : Error) (b : List Error)
      → p.failing ≡ a ++ e ∷ b
      → p.errs_closed ≡ false
      → length p.errs < p.workers
      → Step p (record p { failing = a ++ b; errs = p.errs ++ e ∷ []; wg = p.wg - 1 })
  -- the same send, if the channel is closed
  report_panics :
      {p : WorkerPool} (a : List Error) (e : Error) (b : List Error)
      → p.failing ≡ a ++ e ∷ b
      → p.errs_closed ≡ true
      → Step p (record p { failing = a ++ b; panicked = some send_on_errs })
  -- the reader of `errs` receives an error
  read :
      {p : WorkerPool} (e : Error) (rest : List Error)
      → p.errs ≡ e ∷ rest
      → Step p (record p { errs = rest })
  -- `Close`: `close(p.closed)`
  close_pool : {p : WorkerPool} → p.closed ≡ false → Step p (record p { closed = true })
  -- `close(p.jobs)`
  close_jobs :
      {p : WorkerPool}
      → p.closed ≡ true
      → p.jobs_closed ≡ false
      → Step p (record p { jobs_closed = true })
  -- `p.wg.Wait()` and `close(p.errs)`
  close_errs :
      {p : WorkerPool}
      → p.jobs_closed ≡ true
      → p.errs_closed ≡ false
      → p.wg ≡ 0
      → Step p (record p { errs_closed = true })

-- What a started pool may become. A panic ends the program.
pub data IsReachable (workers : ℕ) : WorkerPool → Type 0 where
  start : IsReachable workers (new_worker_pool workers)
  step :
      {p q : WorkerPool}
      → IsReachable workers p
      → p.panicked ≡ none
      → Step p q
      → IsReachable workers q
