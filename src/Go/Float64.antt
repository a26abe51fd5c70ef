-- ===== src/Go/Float64.antt =====
-- Go's `float64` as the program uses it: compared and printed. A finite value is a sign and a
-- magnitude in units of 2^-1074, the spacing of the subnormals, of which every finite float64 is a
-- whole multiple. The type also holds magnitudes that need more than 53 bits.
use iot_metrics.Base.{
  ℕ, ◌+◌, ◌*◌, ◌^◌, ◌≡◌, Bool, true, false, arith, ltb, if◌then◌else◌, ℤ, pos, negsuc, suc,
}

pub data Float64 : Type 0 where
  nan neg_inf pos_inf : Float64
  -- The sign bit (`true` for negative) and the magnitude.
  finite : Bool → ℕ → Float64

abbrev pub above : Bool → ℕ → ℕ
above neg m = if neg then 0 else m

abbrev pub under : Bool → ℕ → ℕ
under neg m = if neg then m else 0

-- `a < b`. A comparison with NaN is false, and the two zeros are equal.
unfoldable pub ltb_float : Float64 → Float64 → Bool
ltb_float (finite s m) (finite t n) = ltb (above s m + under t n) (above t n + under s m)
ltb_float (finite s m) pos_inf = true
ltb_float neg_inf (finite t n) = true
ltb_float neg_inf pos_inf = true
ltb_float _ _ = false

-- The number of units of 2^-1074 in 1.
unfoldable pub units : ℕ
units = 2 ^ 1074

-- An untyped integral constant, converted.
unfoldable pub of_whole : ℤ → Float64
of_whole (pos n) = finite false (n * units)
of_whole (negsuc n) = finite true (suc n * units)

-- Neither NaN nor an infinity.
abbrev pub IsFinite : Float64 → Type 0
IsFinite (finite s m) = Unit
IsFinite _ = ⊥

pub ltb_float_asymm : (a b : Float64) → ltb_float a b ≡ true → ltb_float b a ≡ false
unfolding ltb_float
ltb_float_asymm a b h = ground arith

pub ltb_float_nan : (a : Float64) → ltb_float Float64.nan a ≡ false
unfolding ltb_float
ltb_float_nan a = ground arith
