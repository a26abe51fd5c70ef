-- ===== src/Go/Arith/Bounds.antt =====
-- How far rounding may go: a rounded value is at most about twice the exact one.
use iot_metrics.Base.{
  ℕ, zero, suc, ◌+◌, ◌*◌, ◌/◌, ◌^◌, ◌≤◌, ◌<◌, ◌≡◌, refl, sym, subst, true, false, inl, inr,
  Bool-cases, ltb, ◌==◌, if◌then◌else◌, arith,
}
use iot_metrics.Go.Arith.{
  scale, max_halvings, round_magnitude, round_float, infinity, add_float, mul_float, div_float,
  trunc,
}
use iot_metrics.Go.Float64.{Float64, nan, neg_inf, pos_inf, finite, units}
use iot_metrics.Go.Fmt.{round_div}
use native.Mathlib.Nat.{div-div-eq-div-mul, div-mul-le_self, div-le_of_le-mul}

scale_le : (fuel q : ℕ) → 0 < q → scale fuel q ≤ q
unfolding scale
scale_le zero q h = omega (arith, h)
scale_le (suc fuel) q h = elim (Bool-cases (ltb q (2 ^ 53))) [
  | inl e ↦ rw e (omega (arith, h))
  | inr e ↦ rw e (omega (arith, scale_le fuel (q / 2) (ground arith)))
]

scale_zero : (fuel : ℕ) → scale fuel 0 ≤ 1
unfolding scale
scale_zero zero = omega arith
scale_zero (suc fuel) = omega arith

round_div_le : (n d : ℕ) → round_div n d ≤ n / d + 1
unfolding round_div
round_div_le n d = ground arith

scale-bound : (fuel q : ℕ) → scale fuel q ≤ q + 1
scale-bound fuel zero = scale_zero fuel
scale-bound fuel (suc q) = omega (arith, scale_le fuel (suc q) (omega arith))

times_mono : (a b p : ℕ) → a ≤ b → a * p ≤ b * p
times_mono a b zero h = omega arith
times_mono a b (suc p) h = omega (arith, times_mono a b p h, h)

-- Rounding adds at most the weight of the last bit, which is at most one more than the quotient.
round_magnitude_le : (num den : ℕ) → round_magnitude num den ≤ num / den + num / den + 1
unfolding round_magnitude
round_magnitude_le num den =
    go (scale max_halvings (num / den)) (scale-bound max_halvings (num / den))
  where
    go : (p : ℕ) → p ≤ num / den + 1 → round_div num (den * p) * p ≤ num / den + num / den + 1
    go p small =
        let up = times_mono _ _ p (round_div_le num (den * p)) in
        let down = div-mul-le_self (num / den) p in
        let same = div-div-eq-div-mul num den p in
        omega (arith, up, subst (λ n. n * p ≤ num / den) same down, small)

-- A value that is not negative and at most `b` units.
abbrev pub IsUpTo : ℕ → Float64 → Type 0
IsUpTo b (finite false m) = m ≤ b
IsUpTo b _ = ⊥

round_float-IsUpTo :
    (num den b : ℕ)
    → num ≤ den * b
    → b + b + 1 < 2 ^ 2098
    → IsUpTo (b + b + 1) (round_float false num den)
unfolding round_float
round_float-IsUpTo num den b h small =
    go (round_magnitude num den) (omega (arith, round_magnitude_le num den, div-le_of_le-mul den h))
  where
    go :
        (m : ℕ)
        → m ≤ b + b + 1
        → IsUpTo (b + b + 1) (if ltb m (2 ^ 2098) then finite false m else infinity false)
    go m le = elim (Bool-cases (ltb m (2 ^ 2098))) [
      | inl e ↦ rw e le
      | inr e ↦ absurd (ground arith)
    ]

units-small : (0 < units) × (1000000 * units < 2 ^ 2098)
unfolding units
units-small = (omega arith, omega arith)

-- The operations on values that are not negative, as far as the program needs them.
module _ (m n b : ℕ) (small : b + b + 1 < 2 ^ 2098) where
  pub add_float-IsUpTo :
      m + n ≤ b → IsUpTo (b + b + 1) (add_float (finite false m) (finite false n))
  unfolding add_float
  add_float-IsUpTo h = round_float-IsUpTo (m + n) 1 b (omega (arith, h)) small

  pub mul_float-IsUpTo :
      m * n ≤ units * b → IsUpTo (b + b + 1) (mul_float (finite false m) (finite false n))
  unfolding mul_float
  mul_float-IsUpTo h = round_float-IsUpTo (m * n) units b h small

  pub div_float-IsUpTo :
      0 < n → m * units ≤ n * b → IsUpTo (b + b + 1) (div_float (finite false m) (finite false n))
  unfolding div_float
  div_float-IsUpTo pos_n h = rw (not_zero n pos_n) (round_float-IsUpTo (m * units) n b h small)
    where
      not_zero : (n : ℕ) → 0 < n → (n == 0) ≡ false
      not_zero n h = ground arith

IsUpTo-finite : (b : ℕ) (a : Float64) → IsUpTo b a → (m : ℕ) × (a ≡ finite false m) × (m ≤ b)
IsUpTo-finite b (finite false m) h = (m, refl, h)
IsUpTo-finite b (finite true m) h = absurd h
IsUpTo-finite b nan h = absurd h
IsUpTo-finite b neg_inf h = absurd h
IsUpTo-finite b pos_inf h = absurd h

-- An operation on a value that is at most `a` units.
on_value :
    (P : Float64 → Type 0) (a : ℕ) (x : Float64)
    → IsUpTo a x
    → ((m : ℕ) → m ≤ a → P (finite false m))
    → P x
on_value P a x h f = let (m, e, le) = IsUpTo-finite a x h in subst P (sym e) (f m le)

pub trunc-IsUpTo : (b : ℕ) (a : Float64) → IsUpTo b a → IsUpTo b (trunc a)
unfolding trunc
trunc-IsUpTo b a h =
    on_value (λ x. IsUpTo b (trunc x)) b a h (λ m le. omega (arith, le, div-mul-le_self m units))

IsUpTo-mono : (a b : ℕ) (x : Float64) → a ≤ b → IsUpTo a x → IsUpTo b x
IsUpTo-mono a b x h = λ k. on_value (IsUpTo b) a x k (λ m le. omega (arith, le, h))

hundredfold : (m a u : ℕ) → m ≤ a → m * (100 * u) ≤ u * (100 * a)
hundredfold m a u h = omega (arith, times_mono m a (100 * u) h, commuted)
  where
    commuted : a * (100 * u) ≡ u * (100 * a)
    commuted = grind arith

hundredth : (m b u : ℕ) → m ≤ 100 * b → m * u ≤ 100 * u * b
hundredth m b u h = omega (arith, times_mono m (100 * b) u h, commuted)
  where
    commuted : 100 * b * u ≡ 100 * u * b
    commuted = grind arith

-- What `trunc(f * 100) / 100` is at most, if `f = 0 + draw * 100` and `draw` is below 1.
pub scaled-IsUpTo :
    (draw : ℕ)
    → draw ≤ units
    → let hundred = finite false (100 * units) in
      IsUpTo (10000 * units) (
        div_float
          (trunc (
            mul_float (add_float (finite false 0) (mul_float (finite false draw) hundred)) hundred))
          hundred)
unfolding trunc
scaled-IsUpTo draw h =
    let (some_units, few_units) = units-small in
    let u = units in
    let hundred = finite false (100 * u) in
    let product =
      mul_float-IsUpTo draw (100 * u) (100 * u) (omega (arith, few_units))
        (times_mono draw u (100 * u) h) in
    let f = add_float (finite false 0) (mul_float (finite false draw) hundred) in
    let sum : IsUpTo (400 * u + 3) f =
      on_value (λ x. IsUpTo (400 * u + 3) (add_float (finite false 0) x)) (100 * u + 100 * u + 1) _
        product
        (λ m le.
          IsUpTo-mono _ (400 * u + 3) _ (omega arith)
            (add_float-IsUpTo 0 m (200 * u + 1) (omega (arith, few_units)) (omega (arith, le)))) in
    let scaled : IsUpTo (80000 * u + 601) (mul_float f hundred) =
      on_value (λ x. IsUpTo (80000 * u + 601) (mul_float x hundred)) (400 * u + 3) _ sum
        (λ m le. IsUpTo-mono _ (80000 * u + 601) _ (omega arith) (
          mul_float-IsUpTo m (100 * u) (100 * (400 * u + 3)) (omega (arith, few_units))
            (hundredfold m (400 * u + 3) u le))) in
    on_value (λ x. IsUpTo (10000 * u) (div_float x hundred)) (80000 * u + 601) _
      (trunc-IsUpTo (80000 * u + 601) (mul_float f hundred) scaled)
      (λ m le. IsUpTo-mono _ (10000 * u) _ (omega (arith, some_units)) (
        div_float-IsUpTo m (100 * u) (800 * u + 7) (omega (arith, few_units))
          (omega (arith, some_units)) (hundredth m (800 * u + 7) u (omega (arith, le)))))
