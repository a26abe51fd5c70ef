-- ===== src/Rlimit/Shared/Isolation.antt =====
-- Keys do not share limiters, in whatever order their calls and the collector come.
use iot_metrics.Base.{
  ℕ, suc, ◌<◌, ◌≡◌, refl, sym, ap, subst, ◌∙◌, ◌≢◌, ◌⊎◌, inl, inr, String, true, false, Bool-cases,
  List, [], ◌∷◌, ◌++◌, Option, none, some, Option-cases, ℤ, ◌==◌, if◌then◌else◌, arith, In, eq_iff,
}
use iot_metrics.Go.Float64.{Float64}
use iot_metrics.Go.Outcome.{Outcome}
use iot_metrics.Rlimit.{Entry, RateLimiter, set, tick, collects, collect, lookup-collect_iff}
use iot_metrics.Rlimit.Shared.{
  Shared, look_up, wait_at, Step, looks, waits, ticks, IsReachable, start, step,
}
use text.Mathlib.Text.{◌==◌ as eqb_text}

-- An address that is taken, and whose key is `key`.
abbrev Owns : ℕ → (ℕ → String) → String → ℕ → Type 0
Owns fresh owner key a = (a < fresh) × (owner a ≡ key)

-- Each address has one key, which all entries and all holders of it go by.
pub record IsOwned {L : Type 0} (s : Shared L) (owner : ℕ → String) : Type 0 where
  pub entries :
      (key : String) (e : Entry ℕ)
      → s.map_of.limiters key ≡ some e
      → Owns s.fresh owner key e.limiter
  pub held : (key : String) (a : ℕ) → In (key, a) s.holders → Owns s.fresh owner key a

abbrev owner_with : ℕ → String → (ℕ → String) → ℕ → String
owner_with a key owner b = if b == a then key else owner b

Owns-older :
    (fresh : ℕ) (owner : ℕ → String) (new key : String) (a : ℕ)
    → Owns fresh owner key a
    → Owns (suc fresh) (owner_with fresh new owner) key a
Owns-older fresh owner new key a (small, own) = (omega (arith, small), rw (not_fresh a small) own)
  where
    not_fresh : (a : ℕ) → a < fresh → (a == fresh) ≡ false
    not_fresh a small = ground arith

pub Owns-fresh :
    (fresh : ℕ) (owner : ℕ → String) (key : String)
    → Owns (suc fresh) (owner_with fresh key owner) key fresh
Owns-fresh fresh owner key = (omega arith, rw (eqb_refl fresh) refl)
  where
    eqb_refl : (a : ℕ) → (a == a) ≡ true
    eqb_refl a = ground arith

tick-some :
    (now : ℕ) (m : RateLimiter ℕ) (key : String) (e : Entry ℕ)
    → (tick now m).limiters key ≡ some e
    → m.limiters key ≡ some e
unfolding tick collect
tick-some now m key e h = elim (Bool-cases (collects m)) [
  | inl c ↦ ((lookup-collect_iff m now key e).0 (rw c at h)).0
  | inr c ↦ rw c at h
]

In-removed :
    {A : Type 0} (x y : A) (before after : List A)
    → In x (before ++ after)
    → In x (before ++ y ∷ after)
In-removed x y [] after h = inr h
In-removed x y (z ∷ before) after (inl e) = inl e
In-removed x y (z ∷ before) after (inr h) = inr (In-removed x y before after h)

abbrev limiter_of : Option (Entry ℕ) → ℕ
limiter_of none = 0
limiter_of (some e) = e.limiter

-- An address that the map has for a key, or that a call with the key holds.
abbrev pub IsLimiterOf : {L : Type 0} → Shared L → String → ℕ → Type 0
IsLimiterOf s key a =
    In (key, a) s.holders ⊎ ((e : Entry ℕ) × (s.map_of.limiters key ≡ some e) × (e.limiter ≡ a))

IsLimiterOf-Owns :
    {L : Type 0} (s : Shared L) (owner : ℕ → String) (key : String) (a : ℕ)
    → IsOwned s owner
    → IsLimiterOf s key a
    → Owns s.fresh owner key a
IsLimiterOf-Owns s owner key a i (inl h) = i.held key a h
IsLimiterOf-Owns s owner key a i (inr (e, h, same)) =
    subst (Owns s.fresh owner key) same (i.entries key e h)

pub eqb-ne : (b a : ℕ) → b ≢ a → (b == a) ≡ false
eqb-ne b a h = elim (Bool-cases (b == a)) [ inl e ↦ absurd (h (ground arith)) | inr e ↦ e ]

module _ {L X : Type 0} (new_limiter : Float64 → ℤ → L)
    (wait_on : L → ℕ → X → Outcome (Unit {0}) × L) where
  -- An entry is set for a key whose address is owned.
  set-IsOwned :
      (s t : Shared L) (owner owner' : ℕ → String) (key : String) (now a : ℕ)
      → IsOwned s owner
      → ((k : String) (b : ℕ) → Owns s.fresh owner k b → Owns t.fresh owner' k b)
      → Owns t.fresh owner' key a
      → t.map_of ≡ set key (record { limiter = a; seen = now }) s.map_of
      → t.holders ≡ (key, a) ∷ s.holders
      → IsOwned t owner'
  set-IsOwned s t owner owner' key now a i older own maps holds = record {
    entries = λ other e h. entry other e (rw maps at h);
    held = λ k b h. held k b (rw holds at h);
  }
    where
      entry :
          (other : String) (e : Entry ℕ)
          → (set key (record { limiter = a; seen = now }) s.map_of).limiters other ≡ some e
          → Owns t.fresh owner' other e.limiter
      entry other e h = elim (Bool-cases (eqb_text key other)) [
        | inl same ↦
            subst (λ k. Owns t.fresh owner' k e.limiter) ((eq_iff key other).0 same)
              (subst (Owns t.fresh owner' key) (ap limiter_of (rw same at h)) own)
        | inr apart ↦ older other e.limiter (i.entries other e (rw apart at h))
      ]

      held : (k : String) (b : ℕ) → In (k, b) ((key, a) ∷ s.holders) → Owns t.fresh owner' k b
      held k b (inl e) = rw (ap (λ p. p.0) e, ap (λ p. p.1) e) own
      held k b (inr h) = older k b (i.held k b h)

  look_up-IsOwned :
      (s : Shared L) (owner : ℕ → String) (key : String) (now : ℕ)
      → IsOwned s owner
      → (owner' : ℕ → String) × IsOwned (look_up new_limiter key now s).1 owner'
  unfolding look_up
  look_up-IsOwned s owner key now i = elim (Option-cases (s.map_of.limiters key)) [
    | inl e ↦ rw e (
      owner_with s.fresh key owner,
      set-IsOwned s _ owner _ key now s.fresh i (λ k b. Owns-older s.fresh owner key k b)
          (Owns-fresh s.fresh owner key) refl refl,
    )
    | inr (x, e) ↦ rw e (
      owner,
      set-IsOwned s _ owner owner key now x.limiter i (λ k b own. own) (i.entries key x e) refl
          refl,
    )
  ]

  step-IsOwned :
      {s t : Shared L} (owner : ℕ → String)
      → Step new_limiter wait_on s t
      → IsOwned s owner
      → (owner' : ℕ → String) × IsOwned t owner'
  unfolding wait_at
  step-IsOwned {s} owner (looks key now) i = look_up-IsOwned s owner key now i
  step-IsOwned owner (waits before key a after now x e) i = (
    owner,
    record {
      entries = i.entries;
      held = λ k b h. i.held k b (rw e (In-removed (k, b) (key, a) before after h));
    },
  )
  step-IsOwned {s} owner (ticks now) i = (
    owner,
    record { entries = λ key e h. i.entries key e (tick-some now s.map_of key e h); held = i.held },
  )

  pub IsReachable-IsOwned :
      {limit : Float64} {burst ttl gc_interval : ℤ} {s : Shared L}
      → IsReachable new_limiter wait_on limit burst ttl gc_interval s
      → (owner : ℕ → String) × IsOwned s owner
  IsReachable-IsOwned start =
      (λ a. "", record { entries = λ key e h. cc; held = λ k b h. absurd h })
  IsReachable-IsOwned (step r s) = let (owner, i) = IsReachable-IsOwned r in step-IsOwned owner s i

  -- In whatever order calls look their limiters up and wait at them and the collector runs, a call that
  -- waits at its limiter leaves the limiters of all other keys as they are, those that the map holds and
  -- those that other calls hold: no key's tokens are spent for another.
  pub wait_at-others :
      {limit : Float64} {burst ttl gc_interval : ℤ} {s : Shared L} (key other : String)
      (a b now : ℕ) (x : X)
      → IsReachable new_limiter wait_on limit burst ttl gc_interval s
      → In (key, a) s.holders
      → IsLimiterOf s other b
      → key ≢ other
      → (wait_at wait_on a now x s).1.heap b ≡ s.heap b
  unfolding wait_at
  wait_at-others {s = s} key other a b now x r holds found apart =
      let (owner, i) = IsReachable-IsOwned r in
      rw
        (eqb-ne b a (λ same. apart (
          sym (i.held key a holds).1
          ∙ ap owner (sym same)
          ∙ (IsLimiterOf-Owns s owner other b i found).1)))
        refl
