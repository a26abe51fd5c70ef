-- ===== src/Http/Response.antt =====
-- http/error.go: structured error responses, for REST and for Connect. Go ranges over a map in an
-- order that it does not fix; `order` is the one that it takes.
use Prim.Native.String.{◌++◌}
use iot_metrics.Base.{ℕ, String, List, [], ◌∷◌, map, none, some}
use iot_metrics.Go.Errors.{
  Error, connect, invalid_argument, internal, as_bad_request, as_echo_http, as_connect,
}
use iot_metrics.Go.Outcome.{Outcome, ok, err, panic, Call}
use iot_metrics.Http.Status.{status_text, status_bad_request, status_internal_server_error}

abbrev pub Violations : Type 0
Violations = List (String × List String)

pub record RestError : Type 0 where
  pub code : ℕ
  pub text : String
  pub details : List String

-- What a REST handler writes: a status alone, or with a body of the type `B` or an error body.
pub data Response (B : Type 0) : Type 0 where
  no_content : ℕ → Response B
  json : ℕ → B → Response B
  json_error : ℕ → RestError → Response B

-- `strings.Join(parts, sep)`
unfoldable pub join : String → List String → String
join sep [] = ""
join sep (p ∷ []) = p
join sep (p ∷ q ∷ rest) = p ++ (sep ++ join sep (q ∷ rest))

-- `fmt.Sprintf("%s: %s", f, strings.Join(v, ", "))`
abbrev pub violation_text : String × List String → String
violation_text (f, v) = f ++ (": " ++ join ", " v)

-- `RestError.Error`
unfoldable pub rest_error_text : RestError → String
unfolding join
rest_error_text e = elim e.details [ [] ↦ e.text | d ∷ ds ↦ e.text ++ (": " ++ join "; " (d ∷ ds)) ]

module _ (order : Violations → Violations) where
  -- `BadRequestError.Error`; `errors.Join` puts each error on a line of its own.
  unfoldable pub bad_request_text : Violations → String
  unfolding join
  bad_request_text [] = "bad request"
  bad_request_text (v ∷ vs) = "bad request: " ++ join "\n" (map violation_text (order (v ∷ vs)))

  -- `BadRequestError.RestError`
  unfoldable pub rest_error : Violations → RestError
  rest_error violations = record {
    code = status_bad_request;
    text = status_text status_bad_request;
    details = map violation_text (order violations);
  }

  -- `BadRequestError.ConnectError`. The detail is one protobuf message, which always packs.
  unfoldable pub connect_error : Violations → Error
  connect_error [] = connect invalid_argument "bad request" []
  connect_error (v ∷ vs) =
      connect invalid_argument "bad request" (map (λ e. (e.0, join ", " e.1)) (order (v ∷ vs)))

  -- The function literal in `NewEchoErrorMiddleware`.
  unfoldable pub to_rest_error : Error → RestError
  unfolding rest_error
  to_rest_error e = elim (as_echo_http e) [
    | some (code, none) ↦ record { code = code; text = status_text code; details = [] }
    | some (code, some text) ↦ record { code = code; text = text; details = [] }
    | none ↦ elim (as_bad_request e) [
      | some violations ↦ rest_error violations
      | none ↦ record {
        code = status_internal_server_error;
        text = status_text status_internal_server_error;
        details = [];
      }
    ]
  ]

  abbrev pub rest_result : {S B : Type 0} → Outcome (Response B) × S → Outcome (Response B) × S
  rest_result (ok r, s) = (ok r, s)
  rest_result (err e, s) = let r = to_rest_error e in (ok (json_error r.code r), s)
  rest_result (panic, s) = (panic, s)

  -- `NewEchoErrorMiddleware`
  unfoldable pub echo_error_middleware :
      {S C B : Type 0} → (C → Call S (Response B)) → C → Call S (Response B)
  unfolding to_rest_error
  echo_error_middleware handler c s = rest_result (handler c s)

  -- The error that `NewConnectErrorInterceptor` returns for one of the handler.
  unfoldable pub to_connect_error : Error → Error
  unfolding connect_error
  to_connect_error e = elim (as_connect e) [
    | some (code, text, details) ↦ connect code text details
    | none ↦ elim (as_bad_request e) [
      | some violations ↦ connect_error violations
      | none ↦ connect internal "internal server error" []
    ]
  ]

  abbrev pub connect_result : {S B : Type 0} → Outcome B × S → Outcome B × S
  connect_result (ok r, s) = (ok r, s)
  connect_result (err e, s) = (err (to_connect_error e), s)
  connect_result (panic, s) = (panic, s)

  -- `NewConnectErrorInterceptor`
  unfoldable pub connect_error_interceptor : {S C B : Type 0} → (C → Call S B) → C → Call S B
  unfolding to_connect_error
  connect_error_interceptor handler c s = connect_result (handler c s)
