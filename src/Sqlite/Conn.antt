-- ===== src/Sqlite/Conn.antt =====
-- sqlite/conn.go: opening the database. What the driver and the file system answer are parameters.
pub mod Laws
use Prim.Native.String.{◌++◌}
use iot_metrics.Base.{ℕ, zero, suc, String, Option, none, some, if◌then◌else◌}
use iot_metrics.Go.Errors.{Error, wrapped}
use text.Mathlib.Text.{◌==◌}

-- `connMaxRetries`
abbrev pub conn_max_retries : ℕ
conn_max_retries = 5

-- What the environment does in the attempt `i`: the answer to the ping, and the error of the context if
-- it is done before the next attempt is due.
pub record Attempts : Type 0 where
  pub ping : ℕ → Option Error
  pub done : ℕ → Option Error

-- The loop of `waitHealthy`, with so many attempts left, from the attempt `i` on; `last` is the error of
-- the attempt before.
unfoldable pub attempts_left : Attempts → ℕ → ℕ → Option Error → Option Error
attempts_left env zero i none = some (Error.other "sqlite db unhealthy: %!w(<nil>)")
attempts_left env zero i (some last) = some (wrapped "sqlite db unhealthy" last)
attempts_left env (suc left) i last =
    let rest = attempts_left env left (suc i) (env.ping i) in
    elim (env.ping i) [ none ↦ none | some e ↦ elim (env.done i) [ none ↦ rest | some d ↦ some d ] ]

-- `waitHealthy`; `none` is the nil error.
unfoldable pub wait_healthy : Attempts → Option Error
unfolding attempts_left
wait_healthy env = attempts_left env conn_max_retries 0 none

-- `strings.TrimSuffix(s, "/")`
trim_slash : String → String
trim_slash String.[] = ""
trim_slash (String.◌∷◌ c s) =
    let rest = trim_slash s in if String.◌∷◌ c s == "/" then "" else String.◌∷◌ c rest

-- The file that `Open` opens, for the directory of its options.
unfoldable pub file_of : String → String
unfolding trim_slash
file_of dir = if dir == "" then "devices.db" else trim_slash dir ++ ("/" ++ "devices.db")

-- What the environment answers to `Open`: to making the directory, to opening the file, and to the two
-- pragmas.
pub record Opening : Type 0 where
  pub make_dir : String → Option Error
  pub open_file : String → Option Error
  pub foreign_keys : Option Error
  pub write_ahead : Option Error
  pub attempts : Attempts

-- The next step, unless the one before it returned an error.
unfoldable pub or_else : Option Error → Option Error → Option Error
or_else none rest = rest
or_else (some e) rest = some e

unfoldable pub wrapping_error : String → Option Error → Option Error
wrapping_error text none = none
wrapping_error text (some e) = some (wrapped text e)

-- `Open`, for the directory of its options; `none` is the nil error.
unfoldable pub open_db : Opening → String → Option Error
unfolding file_of wait_healthy or_else wrapping_error
open_db env dir =
    or_else
      (if dir == "" then none else wrapping_error "create sqlite directory" (env.make_dir dir))
      (or_else (env.open_file ("file:" ++ (file_of dir ++ "?_journal_mode=WAL&_busy_timeout=5000")))
        (or_else (wrapping_error "enable foreign keys" env.foreign_keys)
          (or_else (wrapping_error "enable WAL mode" env.write_ahead) (wait_healthy env.attempts))))
