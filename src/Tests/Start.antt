-- ===== src/Tests/Start.antt =====
-- The configuration, the connection and the stack of middleware at concrete inputs.
use iot_metrics.Base.{
  ◌≡◌, refl, ◌↔◌, String, [], Option, none, some, pos, ◌≤ℤ◌, ltb, leb_ℤ, ◌∷◌, if◌then◌else◌,
}
use iot_metrics.Config.{Config, RateLimit, validate, default_config, load, loaded}
use iot_metrics.Config.Laws.{IsLevel, IsRate, validate-eq-nil_iff}
use iot_metrics.Go.Errors.{Error, other}
use iot_metrics.Log.{level_info, level_debug, parse_level, write}
use iot_metrics.Main.{burst_of, burst_of-range, logger_of, logger_of-write}
use iot_metrics.Sqlite.Conn.Laws.{IsHealthyWithin, wait_healthy-eq-none_iff}
use iot_metrics.Sqlite.Conn.{Attempts, wait_healthy}

-- A rate of ten tokens a second, which is all that the environment adds to the defaults.
abbrev ten_a_second : RateLimit
ten_a_second = record { tokens = pos 10; seconds = pos 1 }

abbrev ten_config : Config
ten_config = record default_config { device_rate_limit = some ten_a_second }

validate-eq-nil_iff_example :
    (validate ten_config ≡ [])
    ↔ (IsLevel ten_config.logger.level × IsRate ten_config.device_rate_limit)
validate-eq-nil_iff_example = validate-eq-nil_iff ten_config

no_file : String → Option Error
no_file path = some (other "no such file")

unread : String → Config → Option Error × Config
unread path cfg = (none, cfg)

ten_env : Config → Option Error × Config
ten_env cfg = (none, record cfg { device_rate_limit = some ten_a_second })

ten_loaded : load no_file unread ten_env "" ≡ loaded ten_config
unfolding load validate no_file unread ten_env parse_level
ten_loaded = refl

burst_of-range_example :
    (pos 1 ≤ℤ burst_of ten_a_second)
    × (burst_of ten_a_second ≤ℤ pos 50)
    × (burst_of ten_a_second ≤ℤ ten_a_second.tokens)
burst_of-range_example =
    burst_of-range no_file unread ten_env "" ten_config ten_a_second ten_loaded refl

logger_of-write_example : write (logger_of ten_config) level_debug "m" [] [] ≡ (
    if leb_ℤ level_info level_debug
    then record { level = level_debug; message = "m"; attrs = [] } ∷ []
    else [])
logger_of-write_example = logger_of-write ten_config level_debug "m" [] []

-- The third ping succeeds.
abbrev third_time : Attempts
third_time = record {
  ping = λ i. if ltb i 2 then some (other "locked") else none;
  done = λ i. none;
}

wait_healthy-eq-none_iff_example : (wait_healthy third_time ≡ none) ↔ IsHealthyWithin third_time 0 5
wait_healthy-eq-none_iff_example = wait_healthy-eq-none_iff third_time
