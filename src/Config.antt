-- ===== src/Config.antt =====
-- config/config.go: the configuration of the program. The YAML decoder and the one for environment
-- variables are parameters: each changes the configuration that it is given, or fails.
pub mod Laws
use Prim.Native.String.{◌++◌}
use iot_metrics.Base.{
  String, Bool, true, ◌&&◌, not, List, [], ◌∷◌, Option, none, some, ℤ, pos, ltb_ℤ, leb_ℤ,
  if◌then◌else◌,
}
use iot_metrics.Go.Errors.{Error, wrapped}
use iot_metrics.Log.{parse_level}
use mathlib.Core.List
use text.Mathlib.Text.{◌==◌}

-- `Logger`
pub record Logger : Type 0 where
  pub level : String
  pub structured : Bool

-- `RateLimit`
pub record RateLimit : Type 0 where
  pub tokens : ℤ
  pub seconds : ℤ

-- `Config`
pub record Config : Type 0 where
  pub port : ℤ
  pub sqlite_dir : String
  pub logger : Logger
  pub device_rate_limit : Option RateLimit

-- `if condition { errs = append(errs, errors.New(message)) }`
abbrev pub when : Bool → String → List String → List String
when condition message errs = if condition then List.◌++◌ errs (message ∷ []) else errs

check_level : Config → List String → List String
check_level c errs =
    when (not (parse_level c.logger.level).1)
      "logger.level: must be one of [debug, info, warn, error]" errs

-- The condition asks for both sides at once.
check_port : Config → List String → List String
check_port c errs =
    when (ltb_ℤ c.port (pos 1) && ltb_ℤ (pos 65535) c.port) "port: must be between 1 and 65535" errs

check_rate_limit : Option RateLimit → List String → List String
check_rate_limit none errs = errs
check_rate_limit (some r) errs =
    when (leb_ℤ r.seconds (pos 0)) "deviceRateLimit.seconds: must be greater than 0"
      (when (leb_ℤ r.tokens (pos 0)) "deviceRateLimit.tokens: must be greater than 0" errs)

-- `Validate`
unfoldable pub validate : Config → List String
unfolding check_level check_port check_rate_limit
validate c = check_rate_limit c.device_rate_limit (check_port c (check_level c []))

-- The configuration that `Load` starts from.
abbrev pub default_config : Config
default_config = record {
  port = pos 8080;
  sqlite_dir = "./data/";
  logger = record { level = "info"; structured = true };
  device_rate_limit = none;
}

-- How `Load` ends: with a configuration, with an error, or with the end of the program, after the
-- messages were printed.
pub data Loaded : Type 0 where
  loaded : Config → Loaded
  failed : Error → Loaded
  exited : List String → Loaded

abbrev checked : Config → List String → Loaded
checked cfg [] = loaded cfg
checked cfg (e ∷ es) = exited (e ∷ es)

-- `cfg.Validate()`, and what follows.
abbrev finish : Option Error × Config → Loaded
finish (none, cfg) = checked cfg (validate cfg)
finish (some e, cfg) = failed (wrapped "parse config environment variables" e)

-- What opening a file, decoding it and reading the environment do; the latter two also give the
-- configuration that they have changed.
module _ (open_file : String → Option Error) (decode : String → Config → Option Error × Config)
    (parse_env : Config → Option Error × Config) where
  abbrev decoded_file : String → Option Error × Config → Loaded
  decoded_file path (none, cfg) = finish (parse_env cfg)
  decoded_file path (some e, cfg) =
      failed (wrapped ("decode config file at path '" ++ (path ++ "'")) e)

  -- `Load`
  unfoldable pub load : String → Loaded
  load path = if path == "" then finish (parse_env default_config) else elim (open_file path) [
    | some e ↦ failed (wrapped ("open config file at path '" ++ (path ++ "'")) e)
    | none ↦ decoded_file path (decode path default_config)
  ]
