-- ===== src/Go/Arith.antt =====
-- Arithmetic of Go's `float64`: the exact result, rounded to 53 bits, to the even one of two.
pub mod Bounds
use iot_metrics.Base.{
  ℕ, zero, suc, ◌+◌, ◌-◌, ◌*◌, ◌/◌, ◌^◌, ◌≡◌, refl, Bool, true, false, not, ltb, ◌==◌,
  if◌then◌else◌, ℤ, pos, negsuc,
}
use iot_metrics.Go.Float64.{Float64, nan, neg_inf, pos_inf, finite, units, of_whole}
use iot_metrics.Go.Fmt.{round_div}

-- The weight of the last of 53 bits of `q`, on fuel: it doubles no more often than `q` halves.
unfoldable pub scale : ℕ → ℕ → ℕ
scale zero q = 1
scale (suc fuel) q = let rest = scale fuel (q / 2) in if ltb q (2 ^ 53) then 1 else 2 * rest

-- More halvings than any quotient of products of finite values in units takes.
unfoldable pub max_halvings : ℕ
max_halvings = 3200

-- The magnitude that `num / den` is rounded to.
unfoldable pub round_magnitude : ℕ → ℕ → ℕ
round_magnitude num den = let p = scale max_halvings (num / den) in round_div num (den * p) * p

abbrev pub infinity : Bool → Float64
infinity true = neg_inf
infinity false = pos_inf

abbrev pub differ : Bool → Bool → Bool
differ a b = if a then not b else b

-- A float64 of a sign and a magnitude of `num / den` units; too large a one is infinite.
unfoldable pub round_float : Bool → ℕ → ℕ → Float64
round_float neg num den =
    let m = round_magnitude num den in if ltb m (2 ^ 2098) then finite neg m else infinity neg

-- `-a`
abbrev pub negate : Float64 → Float64
negate nan = nan
negate neg_inf = pos_inf
negate pos_inf = neg_inf
negate (finite s m) = finite (not s) m

-- `a + b`
unfoldable pub add_float : Float64 → Float64 → Float64
add_float (finite s m) (finite t n) =
    if not (differ s t)
    then round_float s (m + n) 1
    else if m == n
    then finite false 0
    else if ltb m n
    then round_float t (n - m) 1
    else round_float s (m - n) 1
add_float nan b = nan
add_float (finite s m) b = b
add_float pos_inf neg_inf = nan
add_float pos_inf nan = nan
add_float pos_inf b = pos_inf
add_float neg_inf pos_inf = nan
add_float neg_inf nan = nan
add_float neg_inf b = neg_inf

-- `a - b`
abbrev pub sub_float : Float64 → Float64 → Float64
sub_float a b = add_float a (negate b)

-- A finite value by an infinite one of the sign `t`.
abbrev by_infinity : Bool → ℕ → Bool → Float64
by_infinity s m t = if m == 0 then nan else infinity (differ s t)

-- `a * b`
unfoldable pub mul_float : Float64 → Float64 → Float64
mul_float (finite s m) (finite t n) = round_float (differ s t) (m * n) units
mul_float (finite s m) pos_inf = by_infinity s m false
mul_float (finite s m) neg_inf = by_infinity s m true
mul_float pos_inf (finite t n) = by_infinity t n false
mul_float neg_inf (finite t n) = by_infinity t n true
mul_float pos_inf pos_inf = pos_inf
mul_float pos_inf neg_inf = neg_inf
mul_float neg_inf pos_inf = neg_inf
mul_float neg_inf neg_inf = pos_inf
mul_float nan b = nan
mul_float a nan = nan

-- `a / b`
unfoldable pub div_float : Float64 → Float64 → Float64
div_float (finite s m) (finite t n) =
    if n == 0
    then (if m == 0 then nan else infinity (differ s t))
    else round_float (differ s t) (m * units) n
div_float (finite s m) pos_inf = finite s 0
div_float (finite s m) neg_inf = finite (not s) 0
div_float pos_inf (finite t n) = infinity t
div_float neg_inf (finite t n) = infinity (not t)
div_float _ _ = nan

-- `float64(z)` of an integer
unfoldable pub of_int : ℤ → Float64
of_int (pos n) = round_float false (n * units) 1
of_int (negsuc n) = round_float true (suc n * units) 1

-- `math.Trunc`
unfoldable pub trunc : Float64 → Float64
trunc (finite s m) = finite s (m / units * units)
trunc a = a

tenth_test :
    div_float (of_whole (pos 1)) (of_whole (pos 10))
    ≡ finite false (0x1999999999999A * 2 ^ (1074 - 56))
unfolding div_float of_whole units round_float round_magnitude scale round_div max_halvings
tenth_test = refl
