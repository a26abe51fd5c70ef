-- ===== src/Log.antt =====
-- log/logger.go: levels, the options of a logger, and the lines that it writes by way of package slog. The
-- arguments of a line are taken in pairs of a key and a value.
use iot_metrics.Base.{
  String, Bool, true, false, List, [], ◌∷◌, ◌++◌, ℤ, pos, negsuc, leb_ℤ, if◌then◌else◌,
}
use iot_metrics.Go.Errors.{Error}
use iot_metrics.Go.Float64.{Float64}
use iot_metrics.Go.Time.{Time}
use text.Mathlib.Text.{◌==◌}

-- `slog.LevelDebug`, `LevelInfo`, `LevelWarn` and `LevelError`, as their numbers.
abbrev pub level_debug : ℤ
level_debug = negsuc 3

abbrev pub level_info : ℤ
level_info = pos 0

abbrev pub level_warn : ℤ
level_warn = pos 4

abbrev pub level_error : ℤ
level_error = pos 8

-- `ParseLevel`
unfoldable pub parse_level : String → ℤ × Bool
parse_level level =
    if level == "debug"
    then (level_debug, true)
    else if level == "info"
    then (level_info, true)
    else if level == "warn"
    then (level_warn, true)
    else if level == "error"
    then (level_error, true)
    else (negsuc 0, false)

-- Which handler of package slog or tint writes the lines.
pub data Handler : Type 0 where
  json_handler tint_handler : Handler

-- `loggerOptions`
pub record LoggerOptions : Type 0 where
  pub level : ℤ
  pub handler : Handler

-- `WithLevel`
abbrev pub with_level : ℤ → LoggerOptions → LoggerOptions
with_level level opts = record opts { level = level }

-- `WithDevelopment`
abbrev pub with_development : LoggerOptions → LoggerOptions
with_development opts = record opts { handler = tint_handler }

apply_options : List (LoggerOptions → LoggerOptions) → LoggerOptions → LoggerOptions
apply_options [] opts = opts
apply_options (opt ∷ rest) opts = apply_options rest (opt opts)

-- What a line says of a key. Texts made of a time, a duration or an error are kept as what they are made
-- of; `recovered` is the value of a panic.
pub data Value : Type 0 where
  text_value : String → Value
  number_value : ℤ → Value
  float_value : Float64 → Value
  time_value : Time → Value
  rfc3339 : Time → Value
  duration_value : ℤ → Value
  error_value : Error → Value
  recovered : Value

abbrev pub Attr : Type 0
Attr = String × Value

pub record Line : Type 0 where
  pub level : ℤ
  pub message : String
  pub attrs : List Attr

-- `logger`, with the attributes that `With` gave it.
pub record Logger : Type 0 where
  pub options : LoggerOptions
  pub attrs : List Attr

-- `NewLogger`
unfoldable pub new_logger : List (LoggerOptions → LoggerOptions) → Logger
unfolding apply_options
new_logger opts = record {
  options = apply_options opts (record { level = level_info; handler = json_handler });
  attrs = [];
}

-- `logger.With`
abbrev pub with_attrs : List Attr → Logger → Logger
with_attrs attrs l = record l { attrs = l.attrs ++ attrs }

-- `Logger.Log`, on the lines written so far, the latest first.
unfoldable pub write : Logger → ℤ → String → List Attr → List Line → List Line
write l level message attrs lines =
    if leb_ℤ l.options.level level
    then record { level = level; message = message; attrs = l.attrs ++ attrs } ∷ lines
    else lines
