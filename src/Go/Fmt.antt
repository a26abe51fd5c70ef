-- ===== src/Go/Fmt.antt =====
-- The verbs of `fmt.Sprintf` that the program uses: `%d` and `%.2f`.
use Prim.Native.String.{◌++◌}
use iot_metrics.Base.{
  ℕ, zero, suc, ◌+◌, ◌*◌, ◌/◌, ◌%◌, ◌≡◌, refl, String, ltb, ◌==◌, if◌then◌else◌, ℤ, pos, negsuc,
  false,
}
use iot_metrics.Go.Float64.{Float64, nan, neg_inf, pos_inf, finite, units, of_whole}

digit : ℕ → String
digit d =
    if d == 0
    then "0"
    else if d == 1
    then "1"
    else if d == 2
    then "2"
    else if d == 3
    then "3"
    else if d == 4
    then "4"
    else if d == 5
    then "5"
    else if d == 6
    then "6"
    else if d == 7
    then "7"
    else if d == 8
    then "8"
    else "9"

-- The decimal digits of `n`, on fuel: `n` rounds are enough, since each divides by ten.
digits : ℕ → ℕ → String → String
digits zero n out = out
digits (suc fuel) n out =
    let more = digits fuel (n / 10) (digit (n % 10) ++ out) in
    if ltb n 10 then digit n ++ out else more

pub print_ℕ : ℕ → String
unfolding digits digit
print_ℕ n = digits (suc n) n ""

-- `%d`
unfoldable pub print_int : ℤ → String
unfolding print_ℕ
print_int (pos n) = print_ℕ n
print_int (negsuc n) = "-" ++ print_ℕ (suc n)

-- `n / d`, rounded to the nearest integer, and to the even one of two.
unfoldable pub round_div : ℕ → ℕ → ℕ
round_div n d =
    let q = n / d in
    let r = n % d in
    if ltb (2 * r) d then q else if ltb d (2 * r) then q + 1 else if q % 2 == 0 then q else q + 1

hundredths : ℕ → String
unfolding print_ℕ digit
hundredths c = print_ℕ (c / 100) ++ ("." ++ (digit (c / 10 % 10) ++ digit (c % 10)))

-- `%.2f`
unfoldable pub print_float : Float64 → String
unfolding hundredths round_div units
print_float nan = "NaN"
print_float neg_inf = "-Inf"
print_float pos_inf = "+Inf"
print_float (finite neg m) = (if neg then "-" else "") ++ hundredths (round_div (m * 100) units)

print_int_test : print_int (negsuc 1206) ≡ "-1207"
unfolding print_int
print_int_test = refl

print_float_test : print_float (of_whole (negsuc 9999)) ≡ "-10000.00"
unfolding print_float of_whole
print_float_test = refl

half_to_even : print_float (finite false (units / 8)) ≡ "0.12"
unfolding print_float
half_to_even = refl
