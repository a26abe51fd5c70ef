-- ===== src/Http/Log.antt =====
-- http/log.go: the middleware and the interceptor that write a line for each request. They stand on a
-- state of lines beside that of the handler. Times are read off a clock that is a parameter.
use Prim.Native.String.{◌++◌}
use iot_metrics.Base.{String, List, [], ◌∷◌, Option, none, some, ℤ, pos, ℕ, if◌then◌else◌}
use iot_metrics.Go.Errors.{Error, Code, as_connect}
use iot_metrics.Go.Fmt.{print_int}
use iot_metrics.Go.Outcome.{Outcome, ok, err, panic, Call}
use iot_metrics.Go.Strings.{split, trim_suffix}
use iot_metrics.Go.Time.{Time}
use iot_metrics.Log.{
  Logger, Line, Attr, text_value, number_value, time_value, rfc3339, duration_value, error_value,
  level_info, level_error, write,
}
use mathlib.Core.List
use text.Mathlib.Text.{◌==◌}

-- `middleware.RequestLoggerValues` of package echo, as far as it is asked for.
pub record Values : Type 0 where
  pub start_time : Time
  pub method : String
  pub uri : String
  pub status : ℕ
  pub latency : ℤ
  pub error : Option Error

abbrev log_args : Values → List Attr
log_args v =
    ("time", time_value v.start_time)
    ∷ ("http.method", text_value v.method)
    ∷ ("http.uri", text_value v.uri)
    ∷ ("http.status", number_value (pos v.status))
    ∷ ("duration", duration_value v.latency)
    ∷ []

-- The line for the values of a request, and the error that `LogValuesFunc` returns.
abbrev log_request : {T : Type 0} → Logger → Values → Option Error → Call (List Line × T) (Unit {0})
log_request logger v none (lines, t) =
    (ok tt, (write logger level_info "http request" (log_args v) lines, t))
log_request logger v (some e) (lines, t) = (
  err e,
  (
    write logger level_error "http request" (List.◌++◌ (log_args v) (("error", error_value e) ∷ []))
        lines,
    t,
  ),
)

-- The function literal `LogValuesFunc` in `NewEchoLogMiddleware`.
unfoldable pub log_values : {T : Type 0} → Logger → Values → Call (List Line × T) (Unit {0})
log_values logger v s = if v.method == "OPTIONS" then (ok tt, s) else log_request logger v v.error s

-- `NewEchoLogMiddleware`; `request_logger` is `middleware.RequestLoggerWithConfig` of package echo.
unfoldable pub echo_log_middleware :
    {C T A : Type 0}
    → ((Values → Call (List Line × T) (Unit {0}))
        → (C → Call (List Line × T) A)
        → C
        → Call (List Line × T) A)
    → Logger
    → (C → Call (List Line × T) A)
    → C
    → Call (List Line × T) A
unfolding log_values
echo_log_middleware request_logger logger handler = request_logger (log_values logger) handler

-- What a clock shows as a request begins, and what has passed of it as it ends.
pub record Clock : Type 0 where
  pub start : Time
  pub since_start : ℤ

-- `procParts`, as what the line says of the procedure.
abbrev procedure_parts : String → List String → List Attr
procedure_parts procedure (a ∷ b ∷ c ∷ []) =
    ("connect.service", text_value (trim_suffix "/" b)) ∷ ("connect.method", text_value c) ∷ []
procedure_parts procedure _ = ("connect.procedure", text_value procedure) ∷ []

unfoldable pub procedure_attrs : String → List Attr
unfolding split trim_suffix
procedure_attrs procedure = procedure_parts procedure (split "/" procedure)

-- The number and the name that package connect gives to a code are parameters.
module _ (code_number : Code → ℤ) (code_name : Code → String) where
  unfoldable pub error_attrs : Error → List Attr
  error_attrs e = elim (as_connect e) [
    | none ↦ ("error", error_value e) ∷ []
    | some (code, _, _) ↦
        (
          "error_code",
          text_value ("(" ++ (print_int (code_number code) ++ (") " ++ code_name code))),
        )
        ∷ ("error", error_value e)
        ∷ []
  ]

  abbrev call_attrs : String → Clock → List Attr → List Attr
  call_attrs procedure clock errors =
      List.◌++◌ (("protocol", text_value "connect") ∷ procedure_attrs procedure) (
        ("start_time", rfc3339 clock.start)
        ∷ List.◌++◌ errors (("duration", duration_value clock.since_start) ∷ []))

  abbrev pub logged_call :
      {T B : Type 0}
      → Logger
      → String
      → Clock
      → Outcome B × (List Line × T)
      → Outcome B × (List Line × T)
  logged_call logger procedure clock (ok res, (lines, t)) = (
    ok res,
    (write logger level_info "unary rpc called" (call_attrs procedure clock []) lines, t),
  )
  logged_call logger procedure clock (err e, (lines, t)) = (
    err e,
    (
      write logger level_error "unary rpc called" (call_attrs procedure clock (error_attrs e))
          lines,
      t,
    ),
  )
  logged_call logger procedure clock (panic, s) = (panic, s)

  -- `NewConnectLogInterceptor`
  unfoldable pub connect_log_interceptor :
      {C T B : Type 0}
      → Logger
      → String
      → Clock
      → (C → Call (List Line × T) B)
      → C
      → Call (List Line × T) B
  unfolding procedure_attrs error_attrs
  connect_log_interceptor logger procedure clock handler c s =
      logged_call logger procedure clock (handler c s)
