-- ===== src/Http/Recover.antt =====
-- http/recover.go: what a Connect call is answered whose handler panics.
use iot_metrics.Base.{String, List, [], ◌∷◌}
use iot_metrics.Go.Errors.{Error, connect, internal}
use iot_metrics.Go.Outcome.{Call}
use iot_metrics.Log.{Logger, Line, text_value, recovered, level_error, write}

-- The function literal in `WithConnectRecover`: the error to answer with, and the lines.
unfoldable pub recover_handler :
    {T : Type 0} → Logger → String → List Line × T → Error × (List Line × T)
recover_handler logger procedure (lines, t) = (
  connect internal "internal Error" [],
  (
    write logger level_error "recovered from rpc handler panic"
        (("procedure", text_value procedure) ∷ ("recovered", recovered) ∷ []) lines,
    t,
  ),
)

-- `WithConnectRecover`; `with_recover` is `connect.WithRecover`.
unfoldable pub connect_recover :
    {C T B : Type 0}
    → ((List Line × T → Error × (List Line × T))
        → (C → Call (List Line × T) B)
        → C
        → Call (List Line × T) B)
    → Logger
    → String
    → (C → Call (List Line × T) B)
    → C
    → Call (List Line × T) B
unfolding recover_handler
connect_recover with_recover logger procedure handler =
    with_recover (recover_handler logger procedure) handler
