-- ===== src/Main/Stacks/Laws.antt =====
-- The whole stacks of main.go: logging and recovering change nothing of an answer but that of a panic, and
-- leave one line for each request.
use iot_metrics.Base.{◌≡◌, refl, ◌≢◌, String, List, [], ◌∷◌, Option, none, some, ℤ}
use iot_metrics.Go.Errors.{Error, Code, connect, internal}
use iot_metrics.Go.Outcome.{Outcome, ok, err, panic, Call}
use iot_metrics.Go.Strings.{eqb-of_ne}
use iot_metrics.Http.Log.{
  Values, Clock, echo_log_middleware, connect_log_interceptor, log_values, logged_call,
}
use iot_metrics.Http.Recover.{connect_recover, recover_handler}
use iot_metrics.Http.Response.{
  Response, Violations, echo_error_middleware, connect_error_interceptor, rest_result,
  connect_result, to_rest_error, to_connect_error,
}
use iot_metrics.Log.{Logger, Line, level_info, level_error, write, Value}
use iot_metrics.Main.Stacks.{
  RequestLogger, WithRecover, Served, rest_stack, connect_stack, limited_echo, limited_connect,
  on_service,
}

-- What a call comes to, once the values of it were logged.
abbrev pub then_values : {X A : Type 0} → Outcome A → Outcome (Unit {0}) × X → Outcome A × X
then_values o (ok _, s) = (o, s)
then_values o (err e, s) = (err e, s)
then_values o (panic, s) = (panic, s)

-- After a handler ended with `x`, the values of the request are logged, with its method and the
-- handler's error, and the error of that, or else of the handler, is returned; a panic goes through.
abbrev pub LogsAfter :
    {X A : Type 0} → (Values → Call X (Unit {0})) → String → Outcome A × X → Outcome A × X → Type 0
LogsAfter f method (ok a, s) y =
    (v : Values) × (v.method ≡ method) × (v.error ≡ none) × (y ≡ then_values (ok a) (f v s))
LogsAfter f method (err e, s) y =
    (v : Values) × (v.method ≡ method) × (v.error ≡ some e) × (y ≡ then_values (err e) (f v s))
LogsAfter f method (panic, s) y = y ≡ (panic, s)

-- What package echo promises of `RequestLoggerWithConfig`, with `LogMethod` and `LogError` set.
abbrev pub IsRequestLogger : {C X A : Type 0} → (C → String) → RequestLogger C X A → Type 0
IsRequestLogger {C} {X} {A} method request_logger =
    (f : Values → Call X (Unit {0})) (next : C → Call X A) (c : C) (s : X)
    → LogsAfter f (method c) (next c s) (request_logger f next c s)

abbrev pub recovered_with : {X B : Type 0} → (X → Error × X) → Outcome B × X → Outcome B × X
recovered_with f (ok b, s) = (ok b, s)
recovered_with f (err e, s) = (err e, s)
recovered_with f (panic, s) = let (e, t) = f s in (err e, t)

-- What package connect promises of `WithRecover`.
abbrev pub IsWithRecover : {C X B : Type 0} → WithRecover C X B → Type 0
IsWithRecover {C} {X} {B} with_recover =
    (f : X → Error × X) (next : C → Call X B) (c : C) (s : X)
    → with_recover f next c s ≡ recovered_with f (next c s)

-- One line more, at the level `level`.
abbrev pub OneMore : ℤ → List Line → List Line → Type 0
OneMore level before after = (line : Line) × (after ≡ line ∷ before) × (line.level ≡ level)

-- One line for a call that ended so behind the logging middleware: at `info` for an answer, at `error`
-- for an error.
abbrev pub IsLogged : {A : Type 0} → Outcome A → List Line → List Line → Type 0
IsLogged (ok _) before after = OneMore level_info before after
IsLogged (err _) before after = OneMore level_error before after
IsLogged panic before after = after ≡ before

-- How `y`, of the state with the lines, answers as `x` does, and logs as for the outcome `o`.
abbrev pub AnswersAs :
    {M S A B : Type 0}
    → Outcome B
    → List Line
    → Outcome A × (M × S)
    → Outcome A × Served M S
    → Type 0
AnswersAs o lines x y = (y.0 ≡ x.0) × (y.1.1 ≡ x.1) × IsLogged o lines y.1.0

-- The same, where a panic is answered with an error of the code `internal`, and leaves a line too.
abbrev pub RecoversAs :
    {M S A : Type 0} → List Line → Outcome A × (M × S) → Outcome A × Served M S → Type 0
RecoversAs lines (panic, t) y =
    (y.0 ≡ err (connect internal "internal Error" []))
    × (y.1.1 ≡ t)
    × OneMore level_error lines y.1.0
RecoversAs lines (ok a, t) y = AnswersAs (ok a) lines (ok a, t) y
RecoversAs lines (err e, t) y = AnswersAs {B = Unit {0}} (err e) lines (err e, t) y

module _ (logger : Logger) (at_info : logger.options.level ≡ level_info) where
  write_info :
      (message : String) (attrs : List (String × Value)) (lines : List Line)
      → OneMore level_info lines (write logger level_info message attrs lines)
  unfolding write
  write_info message attrs lines = rw at_info (_, refl, refl)

  write_error :
      (message : String) (attrs : List (String × Value)) (lines : List Line)
      → OneMore level_error lines (write logger level_error message attrs lines)
  unfolding write
  write_error message attrs lines = rw at_info (_, refl, refl)

module _ {M S C B : Type 0} (order : Violations → Violations) (logger : Logger)
    (at_info : logger.options.level ≡ level_info) (wait : Option (String → Call M (Unit {0})))
    (key_getter : C → Option String) (address : C → String) where
  rest_logged :
      (method : String) (x : Outcome (Response B) × (M × S)) (lines : List Line)
      (y : Outcome (Response B) × Served M S)
      → method ≢ "OPTIONS"
      → LogsAfter (log_values logger) method (x.0, (lines, x.1)) y
      → AnswersAs x.0 lines (rest_result order x) (rest_result order y)
  unfolding log_values to_rest_error
  rest_logged method (ok r, t) lines y h (v, is_method, no_error, e) =
      rw (e, is_method, eqb-of_ne method "OPTIONS" h, no_error)
        (refl, refl, write_info logger at_info _ _ lines)
  rest_logged method (err r, t) lines y h (v, is_method, an_error, e) =
      rw (e, is_method, eqb-of_ne method "OPTIONS" h, an_error)
        (refl, refl, write_error logger at_info _ _ lines)
  rest_logged method (panic, t) lines y h e = rw e (refl, refl, refl)

  -- A REST call other than OPTIONS is answered as without the logging middleware, which leaves one line
  -- for it, at the level `error` exactly if an error was returned to it, and at `info` otherwise.
  pub rest_stack-AnswersAs :
      (method : C → String) (request_logger : RequestLogger C (Served M S) (Response B))
      (handler : C → Call S (Response B)) (c : C) (lines : List Line) (t : M × S)
      → IsRequestLogger method request_logger
      → method c ≢ "OPTIONS"
      → AnswersAs
          (limited_echo wait key_getter address handler c t).0
          lines
          (echo_error_middleware order (limited_echo wait key_getter address handler) c t)
          (rest_stack order logger wait key_getter address request_logger handler c (lines, t))
  unfolding rest_stack echo_error_middleware echo_log_middleware
  rest_stack-AnswersAs method request_logger handler c lines t lawful h =
      rest_logged (method c) (limited_echo wait key_getter address handler c t) lines _ h (
        lawful (log_values logger)
          (λ d. on_service (limited_echo wait key_getter address handler d)) c (lines, t))

  module _ (code_number : Code → ℤ) (code_name : Code → String) (procedure : String)
      (clock : Clock) where
    rpc_logged :
        (x : Outcome B × (M × S)) (lines : List Line)
        → RecoversAs lines (connect_result order x) (
            recovered_with (recover_handler logger procedure) (
              connect_result order
                (logged_call code_number code_name logger procedure clock (x.0, (lines, x.1)))))
    unfolding recover_handler to_connect_error
    rpc_logged (ok b, t) lines = (refl, refl, write_info logger at_info _ _ lines)
    rpc_logged (err e, t) lines = (refl, refl, write_error logger at_info _ _ lines)
    rpc_logged (panic, t) lines = (refl, refl, write_error logger at_info _ _ lines)

    -- A Connect call never panics: it is answered as without logging and recovering, or with an error of
    -- the code `internal` in place of a panic, and it leaves one line, at the level `info` exactly if it
    -- has an answer, and at `error` otherwise.
    pub connect_stack-RecoversAs :
        (with_recover : WithRecover C (Served M S) B) (handler : C → Call S B) (c : C)
        (lines : List Line) (t : M × S)
        → IsWithRecover with_recover
        → RecoversAs lines
            (connect_error_interceptor order (limited_connect wait key_getter address handler) c t)
            (connect_stack order logger wait key_getter address code_number code_name with_recover
              procedure clock handler c
              (lines, t))
    unfolding connect_stack connect_error_interceptor connect_log_interceptor connect_recover
    connect_stack-RecoversAs with_recover handler c lines t lawful =
        rw (lawful (recover_handler logger procedure))
          (rpc_logged (limited_connect wait key_getter address handler c t) lines)
