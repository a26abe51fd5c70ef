-- ===== src/Rlimit/Refinement.antt =====
-- The rate limiter against one that never drops a key.
use iot_metrics.Base.{
  ℕ, ◌≤◌, ◌≡◌, refl, ap, subst, ◌∙◌, String, true, Bool-cases, inl, inr, List, [], ◌∷◌, Option,
  none, some, ℤ, arith, if◌then◌else◌,
}
use iot_metrics.Go.Float64.{Float64}
use iot_metrics.Go.Outcome.{Outcome}
use iot_metrics.Rlimit.{
  Entry, RateLimiter, new_rate_limiter, is_expired, collected, collects, tick, set, wait,
}
use text.Mathlib.Text.{◌==◌}

-- A call of `Wait`, or a tick of the collector, at an instant.
pub data Event (X : Type 0) : Type 0 where
  called : String → ℕ → X → Event X
  ticked : ℕ → Event X

abbrev pub instant : {X : Type 0} → Event X → ℕ
instant (called key now x) = now
instant (ticked now) = now

-- The events follow each other in time, from the instant `t` on.
abbrev pub InOrder : {X : Type 0} → ℕ → List (Event X) → Type 0
InOrder t [] = Unit
InOrder t (e ∷ es) = (t ≤ instant e) × InOrder (instant e) es

head_eq : {A : Type 0} {x y : A} {xs ys : List A} → (x ∷ xs) ≡ (y ∷ ys) → x ≡ y
head_eq e = cc

tail_eq : {A : Type 0} {x y : A} {xs ys : List A} → (x ∷ xs) ≡ (y ∷ ys) → xs ≡ ys
tail_eq e = cc

module _ {L X : Type 0} (new_limiter : Float64 → ℤ → L)
    (wait_on : L → ℕ → X → Outcome (Unit {0}) × L) where
  -- The answers of the rate limiter to the calls among the events.
  unfoldable pub answers : List (Event X) → RateLimiter L → List (Outcome (Unit {0}))
  answers [] m = []
  answers (called key now x ∷ es) m =
      let (o, m') = wait new_limiter wait_on key now x m in o ∷ answers es m'
  answers (ticked now ∷ es) m = answers es (tick now m)

  -- The answers of one limiter to a sequence of waits, each with its instant.
  unfoldable pub run : List (ℕ × X) → L → List (Outcome (Unit {0}))
  run [] l = []
  run ((now, x) ∷ waits) l = let (o, l') = wait_on l now x in o ∷ run waits l'

  -- The waits follow each other in time, from the instant `t` on.
  abbrev pub WaitsInOrder : ℕ → List (ℕ × X) → Type 0
  WaitsInOrder t [] = Unit
  WaitsInOrder t ((now, x) ∷ waits) = (t ≤ now) × WaitsInOrder now waits

  -- From the instant `t` on, two limiters cannot be told apart.
  unfoldable pub AnswerAlike : ℕ → L → L → Type 0
  AnswerAlike t a b = (waits : List (ℕ × X)) → WaitsInOrder t waits → run waits a ≡ run waits b

  AnswerAlike-refl : (t : ℕ) (l : L) → AnswerAlike t l l
  unfolding AnswerAlike
  AnswerAlike-refl t l waits o = refl

  WaitsInOrder-later :
      (t now : ℕ) (waits : List (ℕ × X)) → t ≤ now → WaitsInOrder now waits → WaitsInOrder t waits
  WaitsInOrder-later t now [] h o = tt
  WaitsInOrder-later t now ((next, x) ∷ waits) h (k, o) = (omega (arith, h, k), o)

  AnswerAlike-later : (t now : ℕ) (a b : L) → t ≤ now → AnswerAlike t a b → AnswerAlike now a b
  unfolding AnswerAlike
  AnswerAlike-later t now a b h alike waits o = alike waits (WaitsInOrder-later t now waits h o)

  -- Such limiters answer a wait alike, and cannot be told apart after it.
  AnswerAlike-wait :
      (now : ℕ) (a b : L) (x : X)
      → AnswerAlike now a b
      → ((wait_on a now x).0 ≡ (wait_on b now x).0)
        × AnswerAlike now (wait_on a now x).1 (wait_on b now x).1
  unfolding AnswerAlike run
  AnswerAlike-wait now a b x alike = (
    head_eq (alike ((now, x) ∷ []) (omega arith, tt)),
    λ waits o. tail_eq (alike ((now, x) ∷ waits) (omega arith, o)),
  )

  AnswerAlike-trans :
      (t : ℕ) (a b c : L) → AnswerAlike t a b → AnswerAlike t b c → AnswerAlike t a c
  unfolding AnswerAlike
  AnswerAlike-trans t a b c h k waits o = h waits o ∙ k waits o

  -- Whenever the collector drops the limiter of a key, it cannot be told from a new one any more, since
  -- its bucket has filled again.
  unfoldable pub DropsRefilled : List (Event X) → RateLimiter L → Type 0
  DropsRefilled [] m = Unit
  DropsRefilled (called key now x ∷ es) m =
      DropsRefilled es (wait new_limiter wait_on key now x m).1
  DropsRefilled (ticked now ∷ es) m =
      (collects m ≡ true
        → (key : String) (e : Entry L) → m.limiters key ≡ some e
        → is_expired m.ttl now e.seen ≡ true
        → AnswerAlike now (new_limiter m.limit m.burst) e.limiter)
      × DropsRefilled es (tick now m)

  module _ (limit : Float64) (burst : ℤ) where
    abbrev limiter_or_new : Option L → L
    limiter_or_new none = new_limiter limit burst
    limiter_or_new (some l) = l

    abbrev change : String → L → (String → Option L) → String → Option L
    change key l all other = if key == other then some l else all other

    -- The answers if each key has one limiter for good.
    unfoldable pub lasting_answers :
        List (Event X) → (String → Option L) → List (Outcome (Unit {0}))
    lasting_answers [] all = []
    lasting_answers (called key now x ∷ es) all =
        let (o, l) = wait_on (limiter_or_new (all key)) now x in
        o ∷ lasting_answers es (change key l all)
    lasting_answers (ticked now ∷ es) all = lasting_answers es all

    module _ (ttl gc_interval : ℤ) where
      -- How a key's entry stands to its lasting limiter from the instant `t` on.
      Simulates : ℕ → Option (Entry L) → Option L → Type 0
      Simulates t none none = Unit
      Simulates t none (some l) = AnswerAlike t (new_limiter limit burst) l
      Simulates t (some e) none = ⊥
      Simulates t (some e) (some l) = AnswerAlike t e.limiter l

      Simulates-later :
          (t now : ℕ) (e : Option (Entry L)) (l : Option L)
          → t ≤ now
          → Simulates t e l
          → Simulates now e l
      unfolding Simulates
      Simulates-later t now none none h s = tt
      Simulates-later t now none (some l) h s = AnswerAlike-later t now _ l h s
      Simulates-later t now (some e) none h s = absurd s
      Simulates-later t now (some e) (some l) h s = AnswerAlike-later t now e.limiter l h s

      Simulates-collected :
          (now : ℕ) (e : Option (Entry L)) (l : Option L)
          → ((y : Entry L)
              → e ≡ some y
              → is_expired ttl now y.seen ≡ true
              → AnswerAlike now (new_limiter limit burst) y.limiter)
          → Simulates now e l
          → Simulates now (collected ttl now e) l
      unfolding Simulates
      Simulates-collected now none l refilled s = s
      Simulates-collected now (some e) none refilled s = absurd s
      Simulates-collected now (some e) (some l) refilled s =
          elim (Bool-cases (is_expired ttl now e.seen)) [
            | inl h ↦ rw h (AnswerAlike-trans now _ e.limiter l (refilled e refl h) s)
            | inr h ↦ rw h s
          ]

      abbrev entry_or_new : Option (Entry L) → L
      entry_or_new none = new_limiter limit burst
      entry_or_new (some e) = e.limiter

      -- The two limiters of a key cannot be told apart.
      entry-AnswerAlike :
          (t : ℕ) (e : Option (Entry L)) (l : Option L)
          → Simulates t e l
          → AnswerAlike t (entry_or_new e) (limiter_or_new l)
      unfolding Simulates
      entry-AnswerAlike t none none s = AnswerAlike-refl t (new_limiter limit burst)
      entry-AnswerAlike t none (some l) s = s
      entry-AnswerAlike t (some e) none s = absurd s
      entry-AnswerAlike t (some e) (some l) s = s

      Alike : ℕ → RateLimiter L → (String → Option L) → Type 0
      Alike t m all = (key : String) → Simulates t (m.limiters key) (all key)

      abbrev is_like : (String → Option (Entry L)) → RateLimiter L
      is_like limiters = record {
        limiters = limiters;
        limit = limit;
        burst = burst;
        ttl = ttl;
        gc_interval = gc_interval;
      }

      tick-Alike :
          (t now : ℕ) (limiters : String → Option (Entry L)) (all : String → Option L)
          → t ≤ now
          → (collects (is_like limiters) ≡ true
              → (key : String) (e : Entry L) → limiters key ≡ some e
              → is_expired ttl now e.seen ≡ true
              → AnswerAlike now (new_limiter limit burst) e.limiter)
          → Alike t (is_like limiters) all
          → (next : String → Option (Entry L)) × (tick now (is_like limiters) ≡ is_like next)
            × Alike now (is_like next) all
      unfolding tick Alike
      tick-Alike t now limiters all h refilled alike =
          elim (Bool-cases (collects (is_like limiters))) [
            | inl e ↦ (
              λ key. collected ttl now (limiters key),
              rw e refl,
              λ key.
                  Simulates-collected now (limiters key) (all key) (refilled e key)
                    (Simulates-later t now (limiters key) (all key) h (alike key)),
            )
            | inr e ↦ (
              limiters,
              rw e refl,
              λ key. Simulates-later t now (limiters key) (all key) h (alike key),
            )
          ]

      change-Alike :
          (t now : ℕ) (key : String) (limiters : String → Option (Entry L))
          (all : String → Option L) (a b : L)
          → t ≤ now
          → Alike t (is_like limiters) all
          → AnswerAlike now a b
          → Alike now
              (set key (record { limiter = a; seen = now }) (is_like limiters))
              (change key b all)
      unfolding Alike Simulates
      change-Alike t now key limiters all a b h alike same other =
          elim (Bool-cases (key == other)) [
            | inl e ↦ rw e same
            | inr e ↦ rw e (Simulates-later t now (limiters other) (all other) h (alike other))
          ]

      nothing-Alike : Alike 0 (is_like (λ key. none)) (λ key. none)
      unfolding Alike Simulates
      nothing-Alike key = tt

      answers-Alike :
          (es : List (Event X)) (t : ℕ) (limiters : String → Option (Entry L))
          (all : String → Option L)
          → InOrder t es
          → DropsRefilled es (is_like limiters)
          → Alike t (is_like limiters) all
          → answers es (is_like limiters) ≡ lasting_answers es all
      unfolding answers lasting_answers wait Alike DropsRefilled
      answers-Alike [] t limiters all o refilled alike = refl
      answers-Alike (called key now x ∷ es) t limiters all (h, o) refilled alike =
          let same =
            entry-AnswerAlike now (limiters key) (all key)
              (Simulates-later t now (limiters key) (all key) h (alike key)) in
          let (e, alike') =
            AnswerAlike-wait now (entry_or_new (limiters key)) (limiter_or_new (all key)) x same in
          let a = (wait_on (entry_or_new (limiters key)) now x).1 in
          let b = (wait_on (limiter_or_new (all key)) now x).1 in
          let rest =
            answers-Alike es now
              (λ other.
                if key == other then some (record { limiter = a; seen = now }) else limiters other)
              (change key b all) o refilled
              (change-Alike t now key limiters all a b h alike alike') in
          ap (λ r. r ∷ answers es (set key (record { limiter = a; seen = now }) (is_like limiters)))
            e
          ∙ ap (λ l. (wait_on (limiter_or_new (all key)) now x).0 ∷ l) rest
      answers-Alike (ticked now ∷ es) t limiters all (h, o) (refilled, later) alike =
          let (next, e, alike') = tick-Alike t now limiters all h refilled alike in
          ap (answers es) e
          ∙ answers-Alike es now next all o (subst (DropsRefilled es) e later) alike'

    -- To sequences of calls and collector ticks in the order of time, the rate limiter answers as if it
    -- kept one limiter for each key for good, if each limiter that the collector drops cannot be told
    -- from a new one any more: then dropping keys cannot be told from the answers.
    pub answers-lasting_answers :
        (ttl gc_interval : ℤ) (es : List (Event X))
        → InOrder 0 es
        → DropsRefilled es (new_rate_limiter limit burst ttl gc_interval)
        → answers es (new_rate_limiter limit burst ttl gc_interval)
          ≡ lasting_answers es (λ key. none)
    answers-lasting_answers ttl gc_interval es o refilled =
        answers-Alike ttl gc_interval es 0 (λ key. none) (λ key. none) o refilled
          (nothing-Alike ttl gc_interval)
