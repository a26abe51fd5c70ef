-- ===== src/Go/Errors.antt =====
-- Go's error values, and `errors.Is` and `errors.As` at the errors that the program looks for.
use iot_metrics.Base.{ℕ, String, Bool, true, false, List, Option, none, some}

-- The codes of package connect that the program uses.
pub data Code : Type 0 where
  canceled_code invalid_argument resource_exhausted unimplemented internal : Code

pub data Error : Type 0 where
  -- `device.ErrRepoItemNotFound`
  not_found : Error
  -- `sql.ErrNoRows`
  no_rows : Error
  -- `context.Canceled`
  canceled : Error
  -- `migrate.ErrNoChange`
  no_change : Error
  -- `*http.BadRequestError`, with its map of violations
  bad_request : List (String × List String) → Error
  -- `*echo.HTTPError`, with its code and its message, if that is not nil
  echo_http : ℕ → Option String → Error
  -- `*connect.Error`, with its code, message and the field violations of its detail
  connect : Code → String → List (String × String) → Error
  -- any other error of a library, with its text
  other : String → Error
  -- `fmt.Errorf("...: %w", err)`
  wrapped : String → Error → Error

-- `errors.Is(err, ErrRepoItemNotFound)`
unfoldable pub is_not_found : Error → Bool
is_not_found not_found = true
is_not_found (wrapped text e) = is_not_found e
is_not_found _ = false

-- `errors.Is(err, sql.ErrNoRows)`
unfoldable pub is_no_rows : Error → Bool
is_no_rows no_rows = true
is_no_rows (wrapped text e) = is_no_rows e
is_no_rows _ = false

-- `errors.Is(err, context.Canceled)`
unfoldable pub is_canceled : Error → Bool
is_canceled canceled = true
is_canceled (wrapped text e) = is_canceled e
is_canceled _ = false

-- `errors.Is(err, migrate.ErrNoChange)`
unfoldable pub is_no_change : Error → Bool
is_no_change no_change = true
is_no_change (wrapped text e) = is_no_change e
is_no_change _ = false

-- `errors.As(err, &brErr)` at `*http.BadRequestError`
unfoldable pub as_bad_request : Error → Option (List (String × List String))
as_bad_request (bad_request violations) = some violations
as_bad_request (wrapped text e) = as_bad_request e
as_bad_request _ = none

-- `errors.As(err, &echoErr)` at `*echo.HTTPError`
unfoldable pub as_echo_http : Error → Option (ℕ × Option String)
as_echo_http (echo_http code message) = some (code, message)
as_echo_http (wrapped text e) = as_echo_http e
as_echo_http _ = none

-- `errors.As(err, &cerr)` at `*connect.Error`
unfoldable pub as_connect : Error → Option (Code × String × List (String × String))
as_connect (connect code message details) = some (code, message, details)
as_connect (wrapped text e) = as_connect e
as_connect _ = none
