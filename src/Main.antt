-- ===== src/Main.antt =====
-- main.go: what `run` makes of the configuration; Stacks holds the middleware that it puts around the
-- handlers.
pub mod Stacks
pub mod Run
use iot_metrics.Base.{
  ◌≡◌, refl, String, Bool, [], ◌∷◌, Option, some, ℤ, pos, ltb_ℤ, leb_ℤ, List, ◌≤ℤ◌, arith,
  if◌then◌else◌, subst,
}
use iot_metrics.Config.{Config, RateLimit, load, loaded}
use iot_metrics.Config.Laws.{IsRate, load_valid}
use iot_metrics.Go.Arith.{of_int, div_float}
use iot_metrics.Go.Errors.{Error}
use iot_metrics.Go.Float64.{Float64}
use iot_metrics.Rlimit.Shared.{Shared, new_shared}
use iot_metrics.Log.{Logger, Line, Attr, write, new_logger, with_development, level_info}

-- `loggerOpts`, and the logger that `run` makes.
unfoldable pub logger_of : Config → Logger
logger_of cfg = new_logger (if cfg.logger.structured then [] else with_development ∷ [])

-- `min(rl.Tokens, 50)`
unfoldable pub burst_of : RateLimit → ℤ
burst_of rl = if ltb_ℤ rl.tokens (pos 50) then rl.tokens else pos 50

-- `limit`
unfoldable pub limit_of : RateLimit → Float64
limit_of rl = div_float (of_int rl.tokens) (of_int rl.seconds)

-- `rateLimiter`, whose keys are dropped after five minutes, by a round each minute.
abbrev pub rate_limiter_of : {L : Type 0} → (Float64 → ℤ → L) → RateLimit → Shared L
rate_limiter_of new_limiter rl =
    new_shared new_limiter (limit_of rl) (burst_of rl) (pos 300_000_000_000) (pos 60_000_000_000)

-- The burst of a rate limit that `Load` accepted is from 1 to 50, and no more than its tokens.
pub burst_of-range :
    (open_file : String → Option Error) (decode : String → Config → Option Error × Config)
    (parse_env : Config → Option Error × Config) (path : String) (cfg : Config) (rl : RateLimit)
    → load open_file decode parse_env path ≡ loaded cfg
    → cfg.device_rate_limit ≡ some rl
    → (pos 1 ≤ℤ burst_of rl) × (burst_of rl ≤ℤ pos 50) × (burst_of rl ≤ℤ rl.tokens)
unfolding burst_of
burst_of-range open_file decode parse_env path cfg rl h e =
    go (subst IsRate e (load_valid open_file decode parse_env path cfg h).1)
  where
    go :
        IsRate (some rl)
        → (pos 1 ≤ℤ burst_of rl) × (burst_of rl ≤ℤ pos 50) × (burst_of rl ≤ℤ rl.tokens)
    go (tokens, seconds) = (ground arith, ground arith, ground arith)

-- The logger that `run` makes has the level `info`, whatever level is configured, and no attributes.
pub logger_of-level :
    (cfg : Config) → ((logger_of cfg).options.level ≡ level_info) × ((logger_of cfg).attrs ≡ [])
unfolding logger_of new_logger
logger_of-level cfg = go cfg.logger.structured
  where
    go :
        (b : Bool)
        → let l = new_logger (if b then [] else with_development ∷ []) in
          (l.options.level ≡ level_info) × (l.attrs ≡ [])
    go Bool.true = (refl, refl)
    go Bool.false = (refl, refl)

-- The logger that `run` makes writes exactly the lines from the level `info` on, whatever level is
-- configured, and adds nothing to them.
pub logger_of-write :
    (cfg : Config) (level : ℤ) (message : String) (attrs : List Attr) (lines : List Line)
    → write (logger_of cfg) level message attrs lines ≡ (
        if leb_ℤ level_info level
        then record { level = level; message = message; attrs = attrs } ∷ lines
        else lines)
unfolding write
logger_of-write cfg level message attrs lines =
    rw ((logger_of-level cfg).0, (logger_of-level cfg).1) refl
