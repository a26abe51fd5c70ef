-- ===== src/Stress/Laws.antt =====
-- The wait group of the pool, and which of its channels may be sent on when closed.
use iot_metrics.Base.{
  ℕ, Option, Bool, suc, ◌≤◌, ◌+◌, ◌≡◌, refl, ap, ◌∙◌, ◌≢◌, true, List, [], ◌∷◌, ◌++◌, none, some,
  length, length-append, arith,
}
use iot_metrics.Stress.{
  Panic, send_on_jobs, send_on_errs, WorkerPool, Step, IsReachable, start, step, check_open, add,
  send, send_panics, undo, take, done, fail, report, report_panics, read, close_pool, close_jobs,
  close_errs, busy,
}

-- The jobs that the pool has accepted and not finished.
abbrev pub pending : WorkerPool → ℕ
pending p = length p.jobs + busy p

-- While nothing has panicked, the wait group counts `sending` callers and `left` pending jobs. The channels
-- are closed in their order, and nothing is pending once `errs` is closed.
pub record Counts (panicked : Option Panic) (jobs_closed errs_closed : Bool) (wg sending left : ℕ)
    : Type 0 where
  pub counted : panicked ≡ none → wg ≡ sending + left
  pub in_order : errs_closed ≡ true → jobs_closed ≡ true
  pub drained : errs_closed ≡ true → left ≡ 0
  pub errs_open : panicked ≢ some send_on_errs

abbrev pub IsCounted : WorkerPool → Type 0
IsCounted p = Counts p.panicked p.jobs_closed p.errs_closed p.wg (length p.sending) (pending p)

-- Callers and jobs that are counted anew, with no more jobs than before.
recounted :
    {panicked : Option Panic} {jobs_closed errs_closed : Bool} {wg sending left : ℕ}
    (wg' sending' left' : ℕ)
    → (wg ≡ sending + left → wg' ≡ sending' + left')
    → left' ≤ left
    → Counts panicked jobs_closed errs_closed wg sending left
    → Counts panicked jobs_closed errs_closed wg' sending' left'
recounted wg' sending' left' moved fewer i = record {
  counted = λ h. moved (i.counted h);
  in_order = i.in_order;
  drained = λ h. omega (arith, i.drained h, fewer);
  errs_open = i.errs_open;
}

-- Taking an element out of a list.
pub removed {ℓ} :
    {A : Type ℓ} {l : List A} (a : List A) (x : A) (b : List A)
    → l ≡ a ++ x ∷ b
    → length l ≡ suc (length (a ++ b))
removed a x b e = ap length e ∙ omega (arith, length-append a (x ∷ b), length-append a b)

step-IsCounted : {p q : WorkerPool} → p.panicked ≡ none → Step p q → IsCounted p → IsCounted q
step-IsCounted quiet (check_open j open_) i = i
step-IsCounted quiet (add a j b e) i = recounted _ _ _ (λ h. omega (arith, h)) (omega arith) i
step-IsCounted {p} quiet (send a j b e open_ room) i = record {
  counted = λ h. omega (arith, i.counted h, removed a j b e, length-append p.jobs (j ∷ []));
  in_order = i.in_order;
  drained = λ h. cc (i.in_order h, open_);
  errs_open = i.errs_open;
}
step-IsCounted quiet (send_panics a j b e shut) i = record {
  counted = λ h. cc;
  in_order = i.in_order;
  drained = i.drained;
  errs_open = λ h. cc;
}
step-IsCounted quiet (undo a j b e shut) i =
    recounted _ _ _ (λ h. omega (arith, h, removed a j b e)) (omega arith) i
step-IsCounted quiet (take j rest e free) i =
    recounted _ _ _ (λ h. omega (arith, h, ap length e)) (omega (arith, ap length e)) i
step-IsCounted quiet (done a b e) i =
    recounted _ _ _ (λ h. omega (arith, h, removed a none b e)) (omega (arith, removed a none b e))
      i
step-IsCounted quiet (fail a x b e) i =
    recounted _ _ _ (λ h. omega (arith, h, removed a (some x) b e))
      (omega (arith, removed a (some x) b e)) i
step-IsCounted quiet (report a x b e open_ room) i =
    recounted _ _ _ (λ h. omega (arith, h, removed a x b e)) (omega (arith, removed a x b e)) i
step-IsCounted quiet (report_panics a x b e shut) i =
    absurd (omega (arith, i.drained shut, removed a x b e))
step-IsCounted quiet (read x rest e) i = i
step-IsCounted quiet (close_pool open_) i = i
step-IsCounted quiet (close_jobs shut open_) i = record {
  counted = i.counted;
  in_order = λ h. refl;
  drained = i.drained;
  errs_open = i.errs_open;
}
step-IsCounted quiet (close_errs shut open_ none_left) i = record {
  counted = i.counted;
  in_order = λ h. shut;
  drained = λ h. omega (arith, i.counted quiet, none_left);
  errs_open = i.errs_open;
}

-- In every state that a started pool may come to: the wait group counts the callers at their send and the
-- jobs that are queued, run or fail, while nothing has panicked; nothing is pending once `errs` is
-- closed; and no worker has sent on the closed `errs`.
pub IsReachable-IsCounted : {workers : ℕ} {p : WorkerPool} → IsReachable workers p → IsCounted p
IsReachable-IsCounted start = record {
  counted = λ h. refl;
  in_order = λ h. cc;
  drained = λ h. refl;
  errs_open = λ h. cc;
}
IsReachable-IsCounted (step r quiet s) = step-IsCounted quiet s (IsReachable-IsCounted r)

-- A pool of any size may come to panic on a send of `QueueJob` on the closed `jobs`: the caller passes the
-- check, and `Close` closes both channels before it sends.
pub queue_job_may_panic :
    (workers : ℕ) → (p : WorkerPool) × IsReachable workers p × (p.panicked ≡ some send_on_jobs)
queue_job_may_panic workers = (
  _,
  step
      (step
        (step (step (step start refl (check_open none refl)) refl (add [] none [] refl)) refl
          (close_pool refl))
        refl (close_jobs refl refl))
      refl (send_panics [] none [] refl refl),
  refl,
)
