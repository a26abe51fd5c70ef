-- ===== src/System/AlertsStack.antt =====
-- What a Connect client that gets alerts is answered by the whole stack of main.go, over the SQLite repository
-- and behind a rate limiter.
use iot_metrics.Base.{
  ◌∙◌, ◌≡◌, refl, ◌⊎◌, inl, inr, String, List, ℤ, [], ◌∷◌, Bool-cases, Option, some,
}
use iot_metrics.Device.Handlers.{
  connect_get_device_alerts, to_get_device_alerts, to_alerts_response,
}
use iot_metrics.Device.PageToken.{TokenJson, IsTokenJson}
use iot_metrics.Device.Proto
use iot_metrics.Device.Service.{World, get_device_alerts}
use iot_metrics.Device.Types.{RepositoryPageToken, GetDeviceAlertsResponse}
use iot_metrics.Device.Validation.Laws.{IsQueryable}
use iot_metrics.Go.Errors.{
  Error, Code, connect, invalid_argument, internal, is_canceled, as_connect, as_bad_request,
}
use iot_metrics.Go.Outcome.{Outcome, ok, err, panic, Call, next, return}
use iot_metrics.Http.Log.{Clock}
use iot_metrics.Http.RateLimit.{connect_rate_limit_interceptor, key_or, after_wait_connect}
use iot_metrics.Http.Response.{
  Violations, connect_error_interceptor, connect_result, to_connect_error, connect_error,
}
use iot_metrics.Log.{Logger, Line, level_info}
use iot_metrics.Main.Stacks.{Served, WithRecover, connect_stack, limited_connect, on_service}
use iot_metrics.Main.Stacks.Laws.{IsWithRecover, RecoversAs, connect_stack-RecoversAs}
use iot_metrics.Sqlite.Repository.{device_repository}
use iot_metrics.Sqlite.Tables.{Db}
use iot_metrics.System.AlertsAnswers.{
  IsDecodable, IsVerdict, done, refused, failed, crashed, get_device_alerts-IsVerdict,
}
use iot_metrics.System.Answers.{plain_connect}
use iot_metrics.System.Stack.{refusal}
use iot_metrics.System.Internal.{IsPlain}

-- The codes of an answer without a page, for a request that satisfies `P` or not.
abbrev pub IsAlertsError : Type 0 → Error → Type 0
IsAlertsError P e =
    (((details : List (String × String)) × (e ≡ connect invalid_argument "bad request" details))
      × (¬ P))
    ⊎ ((e ≡ connect internal "internal server error" []) × P)
    ⊎ ((e ≡ connect internal "internal Error" []) × P)

-- A page for a request that satisfies `P`, `invalid_argument` for one that does not, and `internal` for one
-- that does but met another error or a panic, of which nothing is told.
abbrev pub IsAlertsRpcAnswer : Type 0 → Outcome Proto.GetDeviceAlertsResponse → Type 0
IsAlertsRpcAnswer P (ok page) = P
IsAlertsRpcAnswer P (err e) = IsAlertsError P e
IsAlertsRpcAnswer P panic = ⊥

-- What the rate limiter's answer makes of the call: where the wait fails it is refused and the service not
-- called, where it succeeds the service answers, and where it panics the call fails as `internal`. The
-- rate limiter is left as the wait leaves it.
abbrev pub WaitedAlerts :
    {M S : Type 0}
    → Type 0
    → S
    → Outcome (Unit {0}) × M
    → Outcome Proto.GetDeviceAlertsResponse × (M × S)
    → Type 0
WaitedAlerts P s (ok _, m) x = IsAlertsRpcAnswer P x.0 × (x.1.0 ≡ m)
WaitedAlerts P s (err e, m) x = (x.0 ≡ err (refusal e)) × (x.1 ≡ (m, s))
WaitedAlerts P s (panic, m) x = (x.0 ≡ err (connect internal "internal Error" [])) × (x.1 ≡ (m, s))

-- The same before a panic is recovered from.
abbrev IsBareAnswer : Type 0 → Outcome Proto.GetDeviceAlertsResponse → Type 0
IsBareAnswer P (ok page) = P
IsBareAnswer P (err e) = IsAlertsError P e
IsBareAnswer P panic = P

abbrev BareAlerts :
    {M S : Type 0}
    → Type 0
    → S
    → Outcome (Unit {0}) × M
    → Outcome Proto.GetDeviceAlertsResponse × (M × S)
    → Type 0
BareAlerts P s (ok _, m) x = IsBareAnswer P x.0 × (x.1.0 ≡ m)
BareAlerts P s (err e, m) x = (x.0 ≡ err (refusal e)) × (x.1 ≡ (m, s))
BareAlerts P s (panic, m) x = (x.0 ≡ panic) × (x.1 ≡ (m, s))

module _ (order : Violations → Violations) where
  bare_verdict :
      {S P : Type 0} (x : Outcome GetDeviceAlertsResponse × S)
      → IsVerdict P x
      → IsBareAnswer P (connect_result order (next x λ res. return (to_alerts_response res))).0
  unfolding to_connect_error connect_error as_connect as_bad_request
  bare_verdict _ (done a s p) = p
  bare_verdict _ (refused [] s n) = inl ((_, refl), n)
  bare_verdict _ (refused (v ∷ vs) s n) = inl ((_, refl), n)
  bare_verdict _ (failed e s h p) = inr (inl (plain_connect order e h, p))
  bare_verdict _ (crashed s p) = p

  -- A service's answer, beside the state of the rate limiter.
  beside :
      {M S : Type 0} (P : Type 0) (m : M) (y : Outcome Proto.GetDeviceAlertsResponse × S)
      → IsBareAnswer P (connect_result order y).0
      → IsBareAnswer P (connect_result order {S = M × S} (y.0, (m, y.1))).0
        × ((connect_result order {S = M × S} (y.0, (m, y.1))).1.0 ≡ m)
  beside P m (ok a, s) h = (h, refl)
  beside P m (err e, s) h = (h, refl)
  beside P m (panic, s) h = (h, refl)

  waited :
      {M S : Type 0} (P : Type 0) (handler : Call S Proto.GetDeviceAlertsResponse) (s : S)
      (x : Outcome (Unit {0}) × M)
      → IsBareAnswer P (connect_result order (handler s)).0
      → BareAlerts P s x
          (connect_result order (after_wait_connect (x.0, (x.1, s)) (on_service handler)))
  unfolding to_connect_error as_connect
  waited P handler s (ok _, m) answer = beside P m (handler s) answer
  waited P handler s (err e, m) answer = elim (Bool-cases (is_canceled e)) [
    | inl k ↦ rw k (refl, refl)
    | inr k ↦ rw k (refl, refl)
  ]
  waited P handler s (panic, m) answer = (refl, refl)

  recovered_alerts :
      {M S : Type 0} (P : Type 0) (s : S) (lines : List Line) (o : Outcome (Unit {0}) × M)
      (x : Outcome Proto.GetDeviceAlertsResponse × (M × S))
      (y : Outcome Proto.GetDeviceAlertsResponse × Served M S)
      → RecoversAs lines x y
      → BareAlerts P s o x
      → WaitedAlerts P s o (y.0, y.1.1)
  recovered_alerts P s lines (ok u, m) (ok a, t) y (e, f, _) answer = rw (e, f) answer
  recovered_alerts P s lines (ok u, m) (err a, t) y (e, f, _) answer = rw (e, f) answer
  recovered_alerts P s lines (ok u, m) (panic, t) y (e, f, _) (p, same) =
      rw (e, f) (inr (inr (refl, p)), same)
  recovered_alerts P s lines (err x, m) (ok a, t) y h (b, _) = cc
  recovered_alerts P s lines (err x, m) (err a, t) y (e, f, _) answer = rw (e, f) answer
  recovered_alerts P s lines (err x, m) (panic, t) y h (b, _) = cc
  recovered_alerts P s lines (panic, m) (ok a, t) y h (b, _) = cc
  recovered_alerts P s lines (panic, m) (err a, t) y h (b, _) = cc
  recovered_alerts P s lines (panic, m) (panic, t) y (e, f, _) (_, same) = (e, f ∙ same)

  -- Through the whole stack a Connect call that gets alerts never panics. It waits at the rate limiter under
  -- its key, or under its address where it has none. If the wait fails it is refused, as `canceled` if the
  -- wait was canceled and as `resource_exhausted` otherwise, and nothing that the service holds changes. If
  -- the wait succeeds the call fails as `invalid_argument`, if the request is not acceptable or its page
  -- token not decodable, and otherwise is answered with a page, or as `internal` without the cause. If the
  -- wait panics the call fails as `internal`. Encoding a page token as JSON fails only with errors that
  -- are not about requests.
  pub get_device_alerts-connect_stack :
      {M : Type 0} (logger : Logger) (wait : String → Call M (Unit {0}))
      (key_getter : Proto.GetDeviceAlertsRequest → Option String)
      (address : Proto.GetDeviceAlertsRequest → String) (code_number : Code → ℤ)
      (code_name : Code → String)
      (with_recover : WithRecover Proto.GetDeviceAlertsRequest
        (Served M (World Db))
        Proto.GetDeviceAlertsResponse)
      (procedure : String) (clock : Clock) (j : TokenJson) (msg : Proto.GetDeviceAlertsRequest)
      (lines : List Line) (m : M) (w : World Db)
      → logger.options.level ≡ level_info
      → IsWithRecover with_recover
      → ((t : RepositoryPageToken) (e : Error) → j.marshal t ≡ err e → IsPlain e)
      → IsTokenJson j
      → let req = to_get_device_alerts msg in
        let y =
          connect_stack order logger
            (some wait)
            key_getter
            address
            code_number
            code_name
            with_recover
            procedure
            clock
            (connect_get_device_alerts device_repository j)
            msg
            (lines, (m, w)) in
        WaitedAlerts
          (IsQueryable req × IsDecodable j req.page_token)
          w
          (wait (key_or (key_getter msg) (address msg)) m)
          (y.0, y.1.1)
  unfolding limited_connect connect_error_interceptor connect_rate_limit_interceptor
      connect_get_device_alerts
  get_device_alerts-connect_stack logger wait key_getter address code_number code_name with_recover
        procedure clock j msg lines m w at_info lawful plain json =
      let req = to_get_device_alerts msg in
      let P = IsQueryable req × IsDecodable j req.page_token in
      let handler = connect_get_device_alerts device_repository j in
      let key = key_or (key_getter msg) (address msg) in
      recovered_alerts P w lines (wait key m) _ _
        (connect_stack-RecoversAs order logger at_info (some wait) key_getter address code_number
          code_name procedure clock with_recover handler msg lines (m, w) lawful)
        (waited P (handler msg) w (wait key m) (
          bare_verdict (get_device_alerts device_repository j req w)
            (get_device_alerts-IsVerdict j plain json req w)))
