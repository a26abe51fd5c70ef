-- ===== src/Base/Int.antt =====
-- Signed integers over the native numbers, and Go's fixed widths.
use Prim.Native.Nat.{ℕ, suc, ◌+◌, ◌-◌, ◌*◌, ◌%◌, ◌^◌, ◌≤◌, ◌<◌}
use mathlib.Core.Path.{◌≡◌}
use mathlib.Core.Bool.{Bool, true}
use native.Mathlib.Nat.{mod-eq_of_lt}
use native.Mathlib.Omega.{arith}
use iot_metrics.Base.Tests.{ltb, leb, ◌==◌, if◌then◌else◌}

-- `negsuc n` is -(n + 1).
pub data ℤ : Type 0 where
  pos : ℕ → ℤ
  negsuc : ℕ → ℤ

abbrev pub pos_part : ℤ → ℕ
pos_part (pos n) = n
pos_part (negsuc n) = 0

abbrev pub neg_part : ℤ → ℕ
neg_part (pos n) = 0
neg_part (negsuc n) = suc n

-- a - b, as an integer.
abbrev pub sub_ℕ : ℕ → ℕ → ℤ
sub_ℕ a b = if leb b a then pos (a - b) else negsuc (b - a - 1)

infixl 65 ◌+ℤ◌ ◌-ℤ◌
infix 50 ◌≤ℤ◌ ◌<ℤ◌
unfoldable pub ◌+ℤ◌ : ℤ → ℤ → ℤ
a +ℤ b = sub_ℕ (pos_part a + pos_part b) (neg_part a + neg_part b)

unfoldable pub ◌-ℤ◌ : ℤ → ℤ → ℤ
a -ℤ b = sub_ℕ (pos_part a + neg_part b) (neg_part a + pos_part b)

abbrev pub ◌≤ℤ◌ : ℤ → ℤ → Type 0
a ≤ℤ b = pos_part a + neg_part b ≤ pos_part b + neg_part a

abbrev pub ◌<ℤ◌ : ℤ → ℤ → Type 0
a <ℤ b = pos_part a + neg_part b < pos_part b + neg_part a

abbrev pub ltb_ℤ : ℤ → ℤ → Bool
ltb_ℤ a b = ltb (pos_part a + neg_part b) (pos_part b + neg_part a)

abbrev pub leb_ℤ : ℤ → ℤ → Bool
leb_ℤ a b = leb (pos_part a + neg_part b) (pos_part b + neg_part a)

abbrev pub eqb_ℤ : ℤ → ℤ → Bool
eqb_ℤ a b = pos_part a + neg_part b == pos_part b + neg_part a

pub eqb_ℤ→eq : (a b : ℤ) → eqb_ℤ a b ≡ true → a ≡ b
eqb_ℤ→eq a b h = ground arith

pub eqb_ℤ_refl : (a : ℤ) → eqb_ℤ a a ≡ true
eqb_ℤ_refl a = ground arith

-- The residue of an integer modulo `m`, from 0 to `m - 1`.
abbrev pub mod_ℤ : ℤ → ℕ → ℕ
mod_ℤ (pos n) m = n % m
mod_ℤ (negsuc n) m = m - 1 - n % m

-- Two's complement at a width of `2 * half` values: what a conversion to that width keeps.
unfoldable pub wrap : ℕ → ℤ → ℤ
wrap half z = let u = mod_ℤ z (2 * half) in if ltb u half then pos u else sub_ℕ u (2 * half)

-- Go's `int32(z)`, and `int64(z)` or `int(z)`.
unfoldable pub to_int32 : ℤ → ℤ
unfolding wrap
to_int32 = wrap (2 ^ 31)

unfoldable pub to_int64 : ℤ → ℤ
unfolding wrap
to_int64 = wrap (2 ^ 63)

-- The integers that a variable of the width can hold.
pub record Fits (half : ℕ) (z : ℤ) : Type 0 where
  pub upper : pos_part z < half
  pub lower : neg_part z ≤ half

pub wrap_of_Fits : (half : ℕ) (z : ℤ) → Fits half z → wrap half z ≡ z
unfolding wrap
wrap_of_Fits half (pos n) f =
    let e : n % (2 * half) ≡ n = mod-eq_of_lt (omega arith) in ground (arith, e)
wrap_of_Fits half (negsuc n) f =
    let e : n % (2 * half) ≡ n = mod-eq_of_lt (omega arith) in ground (arith, e)
