-- ===== src/Rlimit/Shared.antt =====
-- rlimit/rate_limiter.go with its pointers: the map holds addresses of limiters, and a call of `Wait` first
-- looks one up, under the lock, and then waits at it, without the lock. Calls and rounds of the
-- collector come between the two in any order.
pub mod Isolation
pub mod Atomic
use iot_metrics.Base.{
  ℕ, suc, ◌≡◌, String, List, [], ◌∷◌, ◌++◌, Option, none, some, ℤ, ◌==◌, if◌then◌else◌,
}
use iot_metrics.Go.Float64.{Float64}
use iot_metrics.Go.Outcome.{Outcome}
use iot_metrics.Rlimit.{Entry, RateLimiter, new_rate_limiter, set, tick}

-- A `RateLimiter` of addresses, the limiters that stand at them, and the calls that hold one, each with its
-- key. Addresses from `fresh` on are free.
pub record Shared (L : Type 0) : Type 0 where
  pub map_of : RateLimiter ℕ
  pub heap : ℕ → L
  pub fresh : ℕ
  pub holders : List (String × ℕ)

-- A limiter is written to its address.
abbrev pub store : {L : Type 0} → ℕ → L → (ℕ → L) → ℕ → L
store a l heap b = if b == a then l else heap b

module _ {L : Type 0} (new_limiter : Float64 → ℤ → L) where
  -- `NewRateLimiter`; what stands at a free address does not matter.
  abbrev pub new_shared : Float64 → ℤ → ℤ → ℤ → Shared L
  new_shared limit burst ttl gc_interval = record {
    map_of = new_rate_limiter limit burst ttl gc_interval;
    heap = λ a. new_limiter limit burst;
    fresh = 0;
    holders = [];
  }

  -- What `getLimiter` does by the entry that it finds: the address, which the call then holds.
  abbrev pub looked_up : String → ℕ → Shared L → Option (Entry ℕ) → ℕ × Shared L
  looked_up key now s none = (
    s.fresh,
    record s {
      map_of = set key (record { limiter = s.fresh; seen = now }) s.map_of;
      heap = store s.fresh (new_limiter s.map_of.limit s.map_of.burst) s.heap;
      fresh = suc s.fresh;
      holders = (key, s.fresh) ∷ s.holders;
    },
  )
  looked_up key now s (some e) = (
    e.limiter,
    record s {
      map_of = set key (record { limiter = e.limiter; seen = now }) s.map_of;
      holders = (key, e.limiter) ∷ s.holders;
    },
  )

  -- `getLimiter`
  unfoldable pub look_up : String → ℕ → Shared L → ℕ × Shared L
  look_up key now s = looked_up key now s (s.map_of.limiters key)

-- `Wait` of the limiter at an address.
unfoldable pub wait_at :
    {L X : Type 0}
    → (L → ℕ → X → Outcome (Unit {0}) × L)
    → ℕ
    → ℕ
    → X
    → Shared L
    → Outcome (Unit {0}) × Shared L
wait_at wait_on a now x s =
    let (o, l) = wait_on (s.heap a) now x in (o, record s { heap = store a l s.heap })

-- A round of the collector.
abbrev pub tick_shared : {L : Type 0} → ℕ → Shared L → Shared L
tick_shared now s = record s { map_of = tick now s.map_of }

module _ {L X : Type 0} (new_limiter : Float64 → ℤ → L)
    (wait_on : L → ℕ → X → Outcome (Unit {0}) × L) where
  -- One step of a call or of the collector.
  pub data Step : Shared L → Shared L → Type 0 where
    looks : {s : Shared L} (key : String) (now : ℕ) → Step s (look_up new_limiter key now s).1
    waits :
        {s : Shared L} (before : List (String × ℕ)) (key : String) (a : ℕ)
        (after : List (String × ℕ)) (now : ℕ) (x : X)
        → s.holders ≡ before ++ (key, a) ∷ after
        → Step s (record ((wait_at wait_on a now x s).1) { holders = before ++ after })
    ticks : {s : Shared L} (now : ℕ) → Step s (tick_shared now s)

  -- What a new rate limiter may come to.
  pub data IsReachable (limit : Float64) (burst ttl gc_interval : ℤ) : Shared L → Type 0 where
    start :
        IsReachable limit burst ttl gc_interval (new_shared new_limiter limit burst ttl gc_interval)
    step :
        {s t : Shared L}
        → IsReachable limit burst ttl gc_interval s
        → Step s t
        → IsReachable limit burst ttl gc_interval t
