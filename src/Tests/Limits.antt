-- ===== src/Tests/Limits.antt =====
-- The rate limiter at a concrete limiter: one token, which is back after five nanoseconds.
use iot_metrics.Base.{
  ℕ, Bool, subst, eq_iff, ◌+◌, ◌≤◌, ◌≡◌, refl, true, false, ltb, List, [], ◌∷◌, Option, none, some,
  ℤ, pos, arith, if◌then◌else◌, inl, inr,
}
use iot_metrics.Go.Errors.{other}
use iot_metrics.Go.Float64.{Float64, finite}
use iot_metrics.Go.Outcome.{Outcome, ok, err}
use text.Mathlib.Text.{◌==◌}
use iot_metrics.Rlimit.{Entry, new_rate_limiter, wait}
use iot_metrics.Rlimit.Refinement.{
  Event, called, ticked, lasting_answers, run, AnswerAlike, DropsRefilled,
}
use iot_metrics.Rlimit.Shared.{
  Shared, new_shared, look_up, wait_at, IsReachable, start, step, looks,
}
use iot_metrics.Rlimit.Shared.Atomic.{shared_answers, shared_answers-lasting_answers}
use iot_metrics.Rlimit.Shared.Isolation.{wait_at-others}

unfoldable new_token : Float64 → ℤ → Option ℕ
new_token limit burst = none

unfoldable take_token : Option ℕ → ℕ → Unit {0} → Outcome (Unit {0}) × Option ℕ
take_token none now x = (ok tt, some now)
take_token (some last) now x =
    if ltb (last + 5) now then (ok tt, some now) else (err (other "rate: would exceed"), some last)

abbrev sample_events : List (Event (Unit {0}))
sample_events = called "d" 1 tt ∷ called "d" 2 tt ∷ ticked 9 ∷ called "d" 10 tt ∷ []

-- The token that was taken first is back at the tick.
token_back : AnswerAlike new_token take_token 9 (new_token (finite false 1) (pos 1)) (some 1)
unfolding AnswerAlike run new_token take_token
token_back [] o = refl
token_back ((now, x) ∷ waits) (h, o) = rw (late now h) refl
  where
    late : (now : ℕ) → 9 ≤ now → ltb (1 + 5) now ≡ true
    late now h = ground arith

only_entry :
    (same : Bool) (x y e : Entry (Option ℕ))
    → (if same then some x else if same then some y else none) ≡ some e
    → x ≡ e
only_entry true x y e h = cc
only_entry false x y e h = cc

sample_events-DropsRefilled :
    DropsRefilled new_token take_token sample_events
      (new_rate_limiter (finite false 1) (pos 1) (pos 5) (pos 1))
unfolding DropsRefilled wait new_token take_token
sample_events-DropsRefilled = (
  λ collects key e has expired.
      subst (λ (x : Entry (Option ℕ)). AnswerAlike new_token take_token 9 none x.limiter)
        (only_entry ("d" == key) (record { limiter = some 1; seen = 2 })
          (record { limiter = some 1; seen = 1 }) e has)
        token_back,
  tt,
)

shared_answers-lasting_answers_example :
    shared_answers new_token take_token sample_events
      (new_shared new_token (finite false 1) (pos 1) (pos 5) (pos 1))
    ≡ lasting_answers new_token take_token (finite false 1) (pos 1) sample_events (λ key. none)
shared_answers-lasting_answers_example =
    shared_answers-lasting_answers new_token take_token (finite false 1) (pos 1) (pos 5) (pos 1)
      sample_events (omega arith, (omega arith, (omega arith, (omega arith, tt))))
      sample_events-DropsRefilled

-- Two devices have looked their limiters up, and neither has waited yet.
abbrev two_calls : Shared (Option ℕ)
two_calls =
    (look_up new_token "e" 2
      (look_up new_token "d" 1 (new_shared new_token (finite false 1) (pos 1) (pos 5) (pos 1))).1).1

two_calls-IsReachable :
    IsReachable new_token take_token (finite false 1) (pos 1) (pos 5) (pos 1) two_calls
two_calls-IsReachable = step (step start (looks "d" 1)) (looks "e" 2)

wait_at-others_example : (wait_at take_token 0 3 tt two_calls).1.heap 1 ≡ two_calls.heap 1
unfolding look_up
wait_at-others_example =
    wait_at-others new_token take_token "d" "e" 0 1 3 tt two_calls-IsReachable (inr (inl refl))
      (inl (inl refl)) (λ h. cc ((eq_iff "d" "e").1 h))
