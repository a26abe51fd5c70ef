-- ===== src/Go/Time.antt =====
-- Go's `time.Time` as an instant: seconds since the Unix epoch and nanoseconds within the second.
-- The location is left out, since every use converts to UTC.
use iot_metrics.Base.{ℕ, ◌≡◌, Bool, ◌&&◌, ◌||◌, arith, ltb, ◌==◌, ℤ, negsuc, ltb_ℤ, eqb_ℤ}

pub record Time : Type 0 where
  pub secs : ℤ
  pub nanos : ℕ

-- The zero `time.Time`: January 1, year 1, 00:00:00 UTC.
abbrev pub zero_time : Time
zero_time = record { secs = negsuc 62135596799; nanos = 0 }

-- `t.IsZero()`
unfoldable pub is_zero : Time → Bool
is_zero t = eqb_ℤ t.secs zero_time.secs && (t.nanos == 0)

-- `t.After(u)`
unfoldable pub after : Time → Time → Bool
after t u = ltb_ℤ u.secs t.secs || (eqb_ℤ t.secs u.secs && ltb u.nanos t.nanos)

-- `t.Unix()`
abbrev pub unix : Time → ℤ
unix t = t.secs

-- `time.Unix(s, 0).UTC()`
abbrev pub of_unix : ℤ → Time
of_unix s = record { secs = s; nanos = 0 }

pub after_irrefl : (t : Time) → after t t ≡ Bool.false
unfolding after
after_irrefl t = ground arith
