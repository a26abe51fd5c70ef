-- ===== src/Rlimit/Shared/Atomic.antt =====
-- A call that looks its limiter up and waits at it with nothing in between is one step of the rate limiter
-- that holds limiters in place of addresses.
use iot_metrics.Base.{
  ℕ, ◌≡◌, refl, sym, ap, ◌∙◌, ◌≢◌, inl, inr, String, true, Bool-cases, List, [], ◌∷◌, Option, none,
  some, Option-cases, ℤ, ◌==◌, arith, eq_iff, fun_ext,
}
use iot_metrics.Go.Float64.{Float64}
use iot_metrics.Go.Outcome.{Outcome}
use iot_metrics.Rlimit.{
  Entry, RateLimiter, new_rate_limiter, set, tick, collects, collect, collected, is_expired, wait,
  get_limiter,
}
use iot_metrics.Rlimit.Refinement.{
  Event, called, ticked, InOrder, answers, lasting_answers, DropsRefilled, answers-lasting_answers,
}
use iot_metrics.Rlimit.Shared.{
  Shared, store, new_shared, look_up, wait_at, tick_shared, looks, waits, ticks, IsReachable, start,
  step,
}
use iot_metrics.Rlimit.Shared.Isolation.{IsOwned, IsReachable-IsOwned, eqb-ne}
use text.Mathlib.Text.{◌==◌ as eqb_text}

-- An entry with the limiter at its address.
abbrev deref : {L : Type 0} → (ℕ → L) → Option (Entry ℕ) → Option (Entry L)
deref heap none = none
deref heap (some e) = some (record { limiter = heap e.limiter; seen = e.seen })

-- The rate limiter with the limiters in place of their addresses.
abbrev pub view : {L : Type 0} → Shared L → RateLimiter L
view s = record {
  limiters = λ key. deref s.heap (s.map_of.limiters key);
  limit = s.map_of.limit;
  burst = s.map_of.burst;
  ttl = s.map_of.ttl;
  gc_interval = s.map_of.gc_interval;
}

deref-collected :
    {L : Type 0} (heap : ℕ → L) (ttl : ℤ) (now : ℕ) (e : Option (Entry ℕ))
    → deref heap (collected ttl now e) ≡ collected ttl now (deref heap e)
deref-collected heap ttl now none = refl
deref-collected heap ttl now (some e) = elim (Bool-cases (is_expired ttl now e.seen)) [
  | inl h ↦ rw h refl
  | inr h ↦ rw h refl
]

view-tick : {L : Type 0} (now : ℕ) (s : Shared L) → view (tick_shared now s) ≡ tick now (view s)
unfolding tick collect
view-tick now s = elim (Bool-cases (collects s.map_of)) [
  | inl e ↦ rw e (
      ap (λ (f : String → Option (Entry _)). record (view s) { limiters = f })
        (fun_ext λ key. deref-collected s.heap s.map_of.ttl now (s.map_of.limiters key)))
  | inr e ↦ rw e refl
]

eqb_refl : (a : ℕ) → (a == a) ≡ true
eqb_refl a = ground arith

-- An entry is set in both, if no other key's limiter changes.
view-set :
    {L : Type 0} (s : Shared L) (heap : ℕ → L) (key : String) (a now : ℕ) (l : L)
    → heap a ≡ l
    → ((other : String) (e : Entry ℕ)
        → key ≢ other
        → s.map_of.limiters other ≡ some e
        → heap e.limiter ≡ s.heap e.limiter)
    → (other : String)
    → deref heap ((set key (record { limiter = a; seen = now }) s.map_of).limiters other)
      ≡ (set key (record { limiter = l; seen = now }) (view s)).limiters other
view-set s heap key a now l here others other = elim (Bool-cases (eqb_text key other)) [
  | inl e ↦ rw (e, here) refl
  | inr e ↦ rw e (go (λ same. cc (e, (eq_iff key other).1 same)) (s.map_of.limiters other) refl)
]
  where
    go :
        key ≢ other
        → (o : Option (Entry ℕ)) → s.map_of.limiters other ≡ o
        → deref heap o ≡ deref s.heap o
    go apart none h = refl
    go apart (some e) h =
        ap (λ k. some (record { limiter = k; seen = e.seen })) (others other e apart h)

module _ {L X : Type 0} (new_limiter : Float64 → ℤ → L)
    (wait_on : L → ℕ → X → Outcome (Unit {0}) × L) where
  -- `Wait`, undisturbed.
  unfoldable pub call_shared : String → ℕ → X → Shared L → Outcome (Unit {0}) × Shared L
  unfolding look_up wait_at
  call_shared key now x s =
      let (a, s') = look_up new_limiter key now s in
      let (o, s'') = wait_at wait_on a now x s' in (o, record s'' { holders = s.holders })

  -- The limiter at the address that is looked up is the one that the key has, or a new one.
  look_up-limiter :
      (key : String) (now : ℕ) (s : Shared L)
      → let (a, s') = look_up new_limiter key now s in
        s'.heap a ≡ get_limiter new_limiter wait_on key now (view s)
  unfolding look_up get_limiter
  look_up-limiter key now s = elim (Option-cases (s.map_of.limiters key)) [
    | inl e ↦ rw (e, eqb_refl s.fresh, get_limiter) refl
    | inr (y, e) ↦ rw (e, get_limiter) refl
  ]

  -- A limiter that is written to the address that is looked up becomes that of the key alone.
  look_up-store :
      (key : String) (now : ℕ) (s : Shared L) (owner : ℕ → String) (l : L)
      → IsOwned s owner
      → (other : String)
      → let (a, s') = look_up new_limiter key now s in
        deref (store a l s'.heap) (s'.map_of.limiters other)
        ≡ (set key (record { limiter = l; seen = now }) (view s)).limiters other
  unfolding look_up
  look_up-store key now s owner l i other = elim (Option-cases (s.map_of.limiters key)) [
    | inl e ↦ rw e (
        view-set s
          (store s.fresh l (store s.fresh (new_limiter s.map_of.limit s.map_of.burst) s.heap)) key
          s.fresh now l (rw (eqb_refl s.fresh) refl) older other)
    | inr (y, e) ↦ rw e (
        view-set s (store y.limiter l s.heap) key y.limiter now l (rw (eqb_refl y.limiter) refl)
          (apart y e) other)
  ]
    where
      older :
          (other : String) (x : Entry ℕ)
          → key ≢ other
          → s.map_of.limiters other ≡ some x
          → store s.fresh l
              (store s.fresh (new_limiter s.map_of.limit s.map_of.burst) s.heap)
              x.limiter
            ≡ s.heap x.limiter
      older other x differ found =
          let small = (i.entries other x found).0 in
          rw (eqb-ne x.limiter s.fresh λ same. omega (arith, small, same)) refl

      apart :
          (y : Entry ℕ)
          → s.map_of.limiters key ≡ some y
          → (other : String) (x : Entry ℕ) → key ≢ other
          → s.map_of.limiters other ≡ some x
          → store y.limiter l s.heap x.limiter ≡ s.heap x.limiter
      apart y e other x differ found =
          rw
            (eqb-ne x.limiter y.limiter λ same.
              differ
                (sym (i.entries key y e).1 ∙ ap owner (sym same) ∙ (i.entries other x found).1))
            refl

  -- Looking up changes no field of the map but its entries.
  look_up-fields :
      (key : String) (now : ℕ) (s : Shared L) (f : String → Option (Entry L))
      → let m = (look_up new_limiter key now s).1.map_of in
        ◌≡◌ {A = RateLimiter L}
          (record {
            limiters = f;
            limit = m.limit;
            burst = m.burst;
            ttl = m.ttl;
            gc_interval = m.gc_interval;
          })
          (record (view s) { limiters = f })
  unfolding look_up
  look_up-fields key now s f = elim (Option-cases (s.map_of.limiters key)) [
    | inl e ↦ rw e refl
    | inr (y, e) ↦ rw e refl
  ]

  view-call :
      (key : String) (now : ℕ) (x : X) (s : Shared L) (owner : ℕ → String)
      → IsOwned s owner
      → ((call_shared key now x s).0 ≡ (wait new_limiter wait_on key now x (view s)).0)
        × (view (call_shared key now x s).1 ≡ (wait new_limiter wait_on key now x (view s)).1)
  unfolding call_shared wait
  view-call key now x s owner i =
      let e = look_up-limiter key now s in
      let l =
        (wait_on ((look_up new_limiter key now s).1.heap (look_up new_limiter key now s).0) now
          x).1 in
      (
        ap (λ k. (wait_on k now x).0) e,
        look_up-fields key now s (view (call_shared key now x s).1).limiters
            ∙ ap (λ (f : String → Option (Entry L)). record (view s) { limiters = f })
                (fun_ext (look_up-store key now s owner l i))
            ∙ ap (λ k. set key (record { limiter = (wait_on k now x).1; seen = now }) (view s)) e,
      )

  call_shared-IsReachable :
      {limit : Float64} {burst ttl gc_interval : ℤ} (key : String) (now : ℕ) (x : X) (s : Shared L)
      → IsReachable new_limiter wait_on limit burst ttl gc_interval s
      → IsReachable new_limiter wait_on limit burst ttl gc_interval (call_shared key now x s).1
  unfolding call_shared look_up
  call_shared-IsReachable key now x s r =
      step (step r (looks key now))
        (waits [] key (look_up new_limiter key now s).0 s.holders now x held)
    where
      held :
          (look_up new_limiter key now s).1.holders
          ≡ (key, (look_up new_limiter key now s).0) ∷ s.holders
      held = elim (Option-cases (s.map_of.limiters key)) [
        | inl e ↦ rw e refl
        | inr (y, e) ↦ rw e refl
      ]

  -- The answers to calls that nothing comes between, over the limiters at their addresses.
  unfoldable pub shared_answers : List (Event X) → Shared L → List (Outcome (Unit {0}))
  shared_answers [] s = []
  shared_answers (called key now x ∷ es) s =
      let (o, s') = call_shared key now x s in o ∷ shared_answers es s'
  shared_answers (ticked now ∷ es) s = shared_answers es (tick_shared now s)

  shared_answers-answers :
      {limit : Float64} {burst ttl gc_interval : ℤ} (es : List (Event X)) (s : Shared L)
      → IsReachable new_limiter wait_on limit burst ttl gc_interval s
      → shared_answers es s ≡ answers new_limiter wait_on es (view s)
  unfolding shared_answers answers
  shared_answers-answers [] s r = refl
  shared_answers-answers (called key now x ∷ es) s r =
      let (owner, i) = IsReachable-IsOwned new_limiter wait_on r in
      let (o, v) = view-call key now x s owner i in
      let rest =
        shared_answers-answers es (call_shared key now x s).1
          (call_shared-IsReachable key now x s r) in
      ap (λ a. a ∷ shared_answers es (call_shared key now x s).1) o
      ∙ ap (λ l. (wait new_limiter wait_on key now x (view s)).0 ∷ l)
          (rest ∙ ap (answers new_limiter wait_on es) v)
  shared_answers-answers (ticked now ∷ es) s r =
      shared_answers-answers es (tick_shared now s) (step r (ticks now))
      ∙ ap (answers new_limiter wait_on es) (view-tick now s)

  -- To calls that nothing comes between and collector ticks, in the order of time, the rate limiter with
  -- its pointers answers as if it kept one limiter for each key for good, if each limiter that the
  -- collector drops cannot be told from a new one any more, whatever is waited for at it from then on.
  pub shared_answers-lasting_answers :
      (limit : Float64) (burst ttl gc_interval : ℤ) (es : List (Event X))
      → InOrder 0 es
      → DropsRefilled new_limiter wait_on es (new_rate_limiter limit burst ttl gc_interval)
      → shared_answers es (new_shared new_limiter limit burst ttl gc_interval)
        ≡ lasting_answers new_limiter wait_on limit burst es (λ key. none)
  shared_answers-lasting_answers limit burst ttl gc_interval es o refilled =
      shared_answers-answers es (new_shared new_limiter limit burst ttl gc_interval) start
      ∙ answers-lasting_answers new_limiter wait_on limit burst ttl gc_interval es o refilled
