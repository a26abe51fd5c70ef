-- ===== src/Stress/Drain.antt =====
-- A pool that is being closed comes to an end, whatever its goroutines do.
use iot_metrics.Base.{
  ℕ, suc, ◌+◌, ◌*◌, ◌≤◌, ◌<◌, ◌≡◌, refl, ap, ◌∙◌, ◌≢◌, ◌⊎◌, inl, inr, Bool, true, false, List, [],
  ◌∷◌, none, some, length, length-append, arith, Bool-cases, Option-cases,
}
use iot_metrics.Stress.{
  Job, WorkerPool, Step, IsReachable, start, step, check_open, add, send, send_panics, undo, take,
  done, fail, report, report_panics, read, close_pool, close_jobs, close_errs,
}
use iot_metrics.Stress.Laws.{IsCounted, IsReachable-IsCounted, removed}

-- A channel that is still to be closed counts as one step.
abbrev unset : Bool → ℕ
unset true = 0
unset false = 1

-- The steps that may be left: a caller, a job and an error count for each step on their way.
abbrev pub steps_left : WorkerPool → ℕ
steps_left p =
    6 * length p.checked
    + 5 * length p.sending
    + 4 * length p.jobs
    + 3 * length p.running
    + 2 * length p.failing
    + length p.errs
    + unset p.jobs_closed
    + unset p.errs_closed

-- Once `closed` is closed it stays so, and each step leaves fewer.
step-steps_left :
    {p q : WorkerPool}
    → p.closed ≡ true
    → Step p q
    → (q.closed ≡ true) × (steps_left q < steps_left p)
step-steps_left c (check_open j open_) = cc (c, open_)
step-steps_left c (add a j b e) = (c, omega (arith, removed a j b e))
step-steps_left {p} c (send a j b e open_ room) =
    (c, omega (arith, removed a j b e, length-append p.jobs (j ∷ [])))
step-steps_left c (send_panics a j b e shut) = (c, omega (arith, removed a j b e))
step-steps_left c (undo a j b e shut) = (c, omega (arith, removed a j b e))
step-steps_left c (take j rest e free) = (c, omega (arith, ap length e))
step-steps_left c (done a b e) = (c, omega (arith, removed a none b e))
step-steps_left c (fail a x b e) = (c, omega (arith, removed a (some x) b e))
step-steps_left {p} c (report a x b e open_ room) =
    (c, omega (arith, removed a x b e, length-append p.errs (x ∷ [])))
step-steps_left c (report_panics a x b e shut) = (c, omega (arith, removed a x b e))
step-steps_left c (read x rest e) = (c, omega (arith, ap length e))
step-steps_left c (close_pool open_) = cc (c, open_)
step-steps_left c (close_jobs shut open_) = (c, rw open_ (omega arith))
step-steps_left c (close_errs shut open_ none_left) = (c, rw open_ (omega arith))

step-workers : {p q : WorkerPool} → Step p q → q.workers ≡ p.workers
step-workers (check_open j open_) = refl
step-workers (add a j b e) = refl
step-workers (send a j b e open_ room) = refl
step-workers (send_panics a j b e shut) = refl
step-workers (undo a j b e shut) = refl
step-workers (take j rest e free) = refl
step-workers (done a b e) = refl
step-workers (fail a x b e) = refl
step-workers (report a x b e open_ room) = refl
step-workers (report_panics a x b e shut) = refl
step-workers (read x rest e) = refl
step-workers (close_pool open_) = refl
step-workers (close_jobs shut open_) = refl
step-workers (close_errs shut open_ none_left) = refl

IsReachable-workers : {workers : ℕ} {p : WorkerPool} → IsReachable workers p → p.workers ≡ workers
IsReachable-workers start = refl
IsReachable-workers (step r quiet s) = step-workers s ∙ IsReachable-workers r

-- Some step of `p` can be taken.
abbrev pub CanStep : WorkerPool → Type 0
CanStep p = (q : WorkerPool) × Step p q

List-cases : {A : Type 0} (l : List A) → (l ≡ []) ⊎ ((x : A) × (rest : List A) × (l ≡ x ∷ rest))
List-cases [] = inl refl
List-cases (x ∷ rest) = inr (x, rest, refl)

module _ (p : WorkerPool) (c : p.closed ≡ true) (some_worker : 0 < p.workers)
    (quiet : p.panicked ≡ none) (open_ : p.errs_closed ≡ false) (i : IsCounted p) where
  -- A job that runs returns.
  job_ends : (job : Job) (rest : List Job) → p.running ≡ job ∷ rest → CanStep p
  job_ends none rest e = (_, done [] rest e)
  job_ends (some x) rest e = (_, fail [] x rest e)

  -- Without callers and errors, a worker goes on, or all are done.
  worker_steps : p.jobs_closed ≡ true → p.sending ≡ [] → p.errs ≡ [] → CanStep p
  worker_steps shut no_sending no_errs = elim (List-cases p.failing) [
    | inr (x, rest, e) ↦ (_, report [] x rest e open_ (omega (arith, ap length no_errs)))
    | inl no_failing ↦ elim (List-cases p.running) [
      | inr (job, rest, e) ↦ job_ends job rest e
      | inl no_running ↦ elim (List-cases p.jobs) [
        | inr (job, rest, e) ↦
            (_, take job rest e (omega (arith, ap length no_failing, ap length no_running)))
        | inl no_jobs ↦ (
          _,
          close_errs shut open_ (
              omega (
                arith,
                i.counted quiet,
                ap length no_sending,
                ap length no_failing,
                ap length no_running,
                ap length no_jobs,
              )),
        )
      ]
    ]
  ]

  -- A pool that is being closed can go on until `errs` is closed.
  closing_steps : CanStep p
  closing_steps = elim (Bool-cases p.jobs_closed) [
    | inr jobs_open ↦ (_, close_jobs c jobs_open)
    | inl shut ↦ elim (List-cases p.checked) [
      | inr (job, rest, e) ↦ (_, add [] job rest e)
      | inl no_checked ↦ elim (List-cases p.sending) [
        | inr (job, rest, e) ↦ (_, undo [] job rest e c)
        | inl no_sending ↦ elim (List-cases p.errs) [
          | inr (x, rest, e) ↦ (_, read x rest e)
          | inl no_errs ↦ worker_steps shut no_sending no_errs
        ]
      ]
    ]
  ]

-- `n` steps of the goroutines, in any order, while none panics.
pub data Run : ℕ → WorkerPool → WorkerPool → Type 0 where
  stay : {p : WorkerPool} → Run 0 p p
  go_on : {n : ℕ} {p q r : WorkerPool} → p.panicked ≡ none → Step p q → Run n q r → Run (suc n) p r

Run-IsReachable :
    {workers n : ℕ} {p q : WorkerPool} → IsReachable workers p → Run n p q → IsReachable workers q
Run-IsReachable r stay = r
Run-IsReachable r (go_on quiet s more) = Run-IsReachable (step r quiet s) more

Run-steps_left :
    {n : ℕ} {p q : WorkerPool}
    → p.closed ≡ true
    → Run n p q
    → (q.closed ≡ true) × (n + steps_left q ≤ steps_left p)
Run-steps_left c stay = (c, omega arith)
Run-steps_left c (go_on quiet s more) =
    let (c', fewer) = step-steps_left c s in
    let (c'', bound) = Run-steps_left c' more in (c'', omega (arith, fewer, bound))

-- Once `Close` has closed `closed` of a pool with a worker, the goroutines come to an end whatever they do
-- and in whatever order: a run has no more steps than callers, jobs, errors and open channels account
-- for, and it can go on unless `errs` is closed or a goroutine has panicked.
pub closing_ends :
    {workers n : ℕ} {p q : WorkerPool}
    → 0 < workers
    → IsReachable workers p
    → p.closed ≡ true
    → Run n p q
    → (n ≤ steps_left p) × (CanStep q ⊎ (q.errs_closed ≡ true) ⊎ (q.panicked ≢ none))
closing_ends {q = q} some_worker r c run =
    let (c', bound) = Run-steps_left c run in
    let reached = Run-IsReachable r run in
    let enough = IsReachable-workers reached in
    (
      omega (arith, bound),
      elim (Option-cases q.panicked) [
        | inr (x, e) ↦ inr (inr λ h. cc (e, h))
        | inl quiet ↦ elim (Bool-cases q.errs_closed) [
          | inl shut ↦ inr (inl shut)
          | inr open_ ↦ inl (
              closing_steps q c' (omega (arith, enough, some_worker)) quiet open_
                (IsReachable-IsCounted reached))
        ]
      ],
    )
