-- ===== src/Rlimit.antt =====
-- rlimit/rate_limiter.go: a limiter for each key, dropped when its key was not seen for a while. Package
-- `golang.org/x/time/rate` is a parameter: `new_limiter` for `rate.NewLimiter`, and `wait_on` for what
-- `Wait` does to a limiter and answers at an instant; `X` is the rest of its context. Instants are
-- nanoseconds of the monotonic clock. A call is one step here; Shared takes it in two.
pub mod Refinement
pub mod Shared
use iot_metrics.Base.{
  ℕ, sub_ℕ, String, Bool, false, ◌&&◌, Option, none, some, ℤ, pos, ltb_ℤ, [], if◌then◌else◌, ◌≡◌,
  ◌↔◌, Bool-cases, inl, inr, arith,
}
use iot_metrics.Go.Float64.{Float64}
use iot_metrics.Go.Outcome.{Outcome}
use text.Mathlib.Text.{◌==◌}

-- `entry`
pub record Entry (L : Type 0) : Type 0 where
  pub limiter : L
  pub seen : ℕ

-- `RateLimiter`, less its mutex.
pub record RateLimiter (L : Type 0) : Type 0 where
  pub limiters : String → Option (Entry L)
  pub limit : Float64
  pub burst : ℤ
  pub ttl : ℤ
  pub gc_interval : ℤ

-- `now.Sub(e.seen) > m.ttl`
abbrev pub is_expired : ℤ → ℕ → ℕ → Bool
is_expired ttl now seen = ltb_ℤ ttl (sub_ℕ now seen)

-- One entry in a round of the collector.
abbrev pub collected : {L : Type 0} → ℤ → ℕ → Option (Entry L) → Option (Entry L)
collected ttl now none = none
collected ttl now (some e) = if is_expired ttl now e.seen then none else some e

module _ {L : Type 0} where
  -- `NewRateLimiter`
  abbrev pub new_rate_limiter : Float64 → ℤ → ℤ → ℤ → RateLimiter L
  new_rate_limiter limit burst ttl gc_interval = record {
    limiters = λ key. none;
    limit = limit;
    burst = burst;
    ttl = ttl;
    gc_interval = gc_interval;
  }

  -- Whether `NewRateLimiter` starts the collector.
  abbrev pub collects : RateLimiter L → Bool
  collects m = ltb_ℤ (pos 0) m.ttl && ltb_ℤ (pos 0) m.gc_interval

  -- The body of the loop in `startGC`, for a tick at `now`.
  unfoldable pub collect : ℕ → RateLimiter L → RateLimiter L
  collect now m = record m { limiters = λ key. collected m.ttl now (m.limiters key) }

  -- A tick of the collector, if it runs.
  unfoldable pub tick : ℕ → RateLimiter L → RateLimiter L
  unfolding collect
  tick now m = if collects m then collect now m else m

  -- `m.limiters[key] = e`
  abbrev pub set : String → Entry L → RateLimiter L → RateLimiter L
  set key e m = record m { limiters = λ other. if key == other then some e else m.limiters other }

  module _ {X : Type 0} (new_limiter : Float64 → ℤ → L)
      (wait_on : L → ℕ → X → Outcome (Unit {0}) × L) where
    -- `getLimiter`
    unfoldable pub get_limiter : String → ℕ → RateLimiter L → L
    get_limiter key now m = elim (m.limiters key) [
      | none ↦ new_limiter m.limit m.burst
      | some e ↦ e.limiter
    ]

    -- `Wait`; the entry is seen now, and its limiter changes in place.
    unfoldable pub wait : String → ℕ → X → RateLimiter L → Outcome (Unit {0}) × RateLimiter L
    unfolding get_limiter
    wait key now x m =
        let (o, l) = wait_on (get_limiter key now m) now x in
        (o, set key (record { limiter = l; seen = now }) m)

-- A round of the collector drops exactly the keys that were seen longer than the time to live ago, and
-- leaves the entries of the others.
pub lookup-collect_iff :
    {L : Type 0} (m : RateLimiter L) (now : ℕ) (key : String) (e : Entry L)
    → ((collect now m).limiters key ≡ some e)
      ↔ ((m.limiters key ≡ some e) × (is_expired m.ttl now e.seen ≡ false))
unfolding collect
lookup-collect_iff m now key e = go (m.limiters key)
  where
    go :
        (found : Option (Entry _))
        → (collected m.ttl now found ≡ some e)
          ↔ ((found ≡ some e) × (is_expired m.ttl now e.seen ≡ false))
    go none = (λ h. cc, λ h. cc h.0)
    go (some f) = elim (Bool-cases (is_expired m.ttl now f.seen)) [
      | inl h ↦ rw h (λ g. cc, λ g. cc (h, g.0, g.1))
      | inr h ↦ rw h (λ g. (g, cc (h, g)), λ g. g.0)
    ]
