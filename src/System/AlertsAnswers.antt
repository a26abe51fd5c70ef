-- ===== src/System/AlertsAnswers.antt =====
-- What a REST client that gets alerts is answered, over the SQLite repository.
use iot_metrics.Base.{
  ◌≡◌, refl, ◌≢◌, ◌⊎◌, inl, inr, ℕ, String, List, [], ◌∷◌, Bool-cases, Option-cases, Option, none,
  some, eq_iff,
}
use iot_metrics.Device.Handlers.{echo_get_device_alerts, written}
use iot_metrics.Device.PageToken.{
  TokenJson, IsTokenJson, encode_page_token, decode_page_token, encoded, decode_page_token-ne-panic,
}
use iot_metrics.Device.Service.{
  World, inside, get_device_alerts, clamp_page_size, request_token, response_token, decoded,
  timeframe_of, pure,
}
use iot_metrics.Device.Types.{RepositoryPageToken, GetDeviceAlertsRequest, GetDeviceAlertsResponse}
use iot_metrics.Device.Validation.{validate_get_device_alerts_req}
use iot_metrics.Device.Validation.Laws.{IsQueryable, validate_get_device_alerts_req_iff}
use iot_metrics.Device.Validation.Rejection.{validate_get_device_alerts_req-IsRejection}
use iot_metrics.Go.Errors.{Error, bad_request, as_bad_request, as_echo_http}
use iot_metrics.Go.Outcome.{Outcome, ok, err, panic, Call, next, return, wrap_error}
use iot_metrics.Http.Response.{
  Response, no_content, json, json_error, Violations, echo_error_middleware, rest_result,
  to_rest_error, rest_error,
}
use iot_metrics.Sqlite.Repository
use iot_metrics.Sqlite.Repository.{
  device_repository, paged, split_peeked, to_alert, cursor, page_params, with_last, peeked,
}
use iot_metrics.Sqlite.Tables.{Db}
use iot_metrics.System.Internal.{IsPlain}
use iot_metrics.System.Answers.{plain_rest}
use text.Mathlib.Text.{◌==◌}
use iot_metrics.System.Harmless.{
  IsHarmless, next-IsHarmless, wrapped-IsHarmless, get_alerts-IsHarmless,
}

-- The page token of a request is empty, or it is decoded.
abbrev pub IsDecodable : TokenJson → String → Type 0
IsDecodable j text = (text ≡ "") ⊎ ((t : RepositoryPageToken) × (decode_page_token j text ≡ ok t))

-- 200 with a page for a request that satisfies `P`, 400 for one that does not; one that does may also
-- meet another error, and then is answered 500 without its cause, or a panic.
abbrev pub IsAlertsAnswer :
    {S : Type 0} → Type 0 → Outcome (Response GetDeviceAlertsResponse) × S → Type 0
IsAlertsAnswer P (ok (no_content n), s) = ⊥
IsAlertsAnswer P (ok (json n page), s) = (n ≡ 200) × P
IsAlertsAnswer P (ok (json_error n body), s) =
    ((n ≡ 400) × (body.code ≡ 400) × (¬ P))
    ⊎ ((n ≡ 500) × (body ≡ record { code = 500; text = "Internal Server Error"; details = [] }) × P)
IsAlertsAnswer P (err e, s) = ⊥
IsAlertsAnswer P (panic, s) = P

-- How the service ends, for a request that satisfies `P` or not.
pub data IsVerdict {S A : Type 0} (P : Type 0) : Outcome A × S → Type 0 where
  done : (a : A) (s : S) → P → IsVerdict P (ok a, s)
  refused : (vs : Violations) (s : S) → ¬ P → IsVerdict P (err (bad_request vs), s)
  failed : (e : Error) (s : S) → IsPlain e → P → IsVerdict P (err e, s)
  crashed : (s : S) → P → IsVerdict P (panic, s)

harmless-IsVerdict : {S A P : Type 0} (x : Outcome A × S) → IsHarmless x.0 → P → IsVerdict P x
harmless-IsVerdict (ok a, s) h p = done a s p
harmless-IsVerdict (err e, s) h p = failed e s h p
harmless-IsVerdict (panic, s) h p = crashed s p

module _ (j : TokenJson)
    (plain : (t : RepositoryPageToken) (e : Error) → j.marshal t ≡ err e → IsPlain e)
    (returns : IsTokenJson j) where
  encode-IsHarmless : (t : RepositoryPageToken) → IsHarmless (encode_page_token j t)
  unfolding encode_page_token
  encode-IsHarmless t = go (j.marshal t) refl
    where
      go : (o : Outcome (List ℕ)) → j.marshal t ≡ o → IsHarmless (encoded o)
      go (ok b) e = tt
      go (err x) e = plain t x e
      go panic e = tt

  response_token-IsHarmless : (t : Option RepositoryPageToken) → IsHarmless (response_token j t)
  unfolding response_token
  response_token-IsHarmless none = tt
  response_token-IsHarmless (some t) = encode-IsHarmless t

  abbrev after_token :
      GetDeviceAlertsRequest → Option RepositoryPageToken → Call (World Db) GetDeviceAlertsResponse
  after_token req token v =
      next
        (wrap_error "get device alerts" (
          inside v (
            Repository.get_device_alerts req.device_id (timeframe_of req)
              (record { size = clamp_page_size req.page_size; token = token }) v.repo)))
        λ page v'.
          next (response_token j page.next_page_token, v')
            λ text. return (record { alerts = page.items; next_page_token = text })

  after_token-IsHarmless :
      (req : GetDeviceAlertsRequest) (token : Option RepositoryPageToken) (w : World Db)
      → IsHarmless (after_token req token w).0
  after_token-IsHarmless req token w =
      next-IsHarmless _ _
        (wrapped-IsHarmless "get device alerts" w _ (
          get_alerts-IsHarmless req.device_id (timeframe_of req) (clamp_page_size req.page_size)
            token w.repo))
        (λ page v.
          next-IsHarmless (response_token j page.next_page_token, v) _
            (response_token-IsHarmless page.next_page_token) (λ text s. tt))

  -- The request token, as the service goes on from it.
  data IsTokenRead (text : String) : Outcome (Option RepositoryPageToken) → Type 0 where
    token_read : (t : Option RepositoryPageToken) → IsDecodable j text → IsTokenRead text (ok t)
    token_bad : ¬ IsDecodable j text → IsTokenRead text (err (bad_request []))

  decoded-IsTokenRead :
      (text : String) (o : Outcome RepositoryPageToken)
      → text ≢ ""
      → o ≢ panic
      → decode_page_token j text ≡ o
      → IsTokenRead text (decoded o)
  decoded-IsTokenRead text (ok t) given h e = token_read (some t) (inr (t, e))
  decoded-IsTokenRead text (err x) given h e = token_bad (not_decodable x e)
    where
      not_decodable : (x : Error) → decode_page_token j text ≡ err x → ¬ IsDecodable j text
      not_decodable x e (inl empty) = given empty
      not_decodable x e (inr (t, is_t)) = cc
  decoded-IsTokenRead text panic given h e = absurd (h refl)

  request_token-IsTokenRead : (text : String) → IsTokenRead text (request_token j text)
  unfolding request_token
  request_token-IsTokenRead text = elim (Bool-cases (text == "")) [
    | inl e ↦ rw e (token_read none (inl ((eq_iff text "").0 e)))
    | inr e ↦ rw e (
        decoded-IsTokenRead text (decode_page_token j text)
          (λ same. cc (e, (eq_iff text "").1 same)) (decode_page_token-ne-panic j returns text)
          refl)
  ]

  token-IsVerdict :
      (req : GetDeviceAlertsRequest) (w : World Db) (o : Outcome (Option RepositoryPageToken))
      → IsQueryable req
      → IsTokenRead req.page_token o
      → IsVerdict (IsQueryable req × IsDecodable j req.page_token) (next (o, w) (after_token req))
  token-IsVerdict req w _ valid (token_read t d) =
      harmless-IsVerdict (after_token req t w) (after_token-IsHarmless req t w) (valid, d)
  token-IsVerdict req w _ valid (token_bad n) = refused [] w (λ h. n h.1)

  pub get_device_alerts-IsVerdict :
      (req : GetDeviceAlertsRequest) (w : World Db)
      → IsVerdict
          (IsQueryable req × IsDecodable j req.page_token)
          (get_device_alerts device_repository j req w)
  unfolding get_device_alerts
  get_device_alerts-IsVerdict req w = elim (Option-cases (validate_get_device_alerts_req req)) [
    | inl e ↦ rw e (
        token-IsVerdict req w (request_token j req.page_token)
          ((validate_get_device_alerts_req_iff req).0 e) (request_token-IsTokenRead req.page_token))
    | inr (e, rejected) ↦
        let (x, xs, same) = validate_get_device_alerts_req-IsRejection req e rejected in
        rw (rejected, same)
          (refused (x ∷ xs) w λ p. cc (rejected, (validate_get_device_alerts_req_iff req).1 p.0))
  ]

  module _ (order : Violations → Violations)
      (encoding_error : GetDeviceAlertsResponse → Option Error)
      (page_plain : (page : GetDeviceAlertsResponse) (e : Error)
        → encoding_error page ≡ some e
        → IsPlain e) where
    written_answer :
        {S P : Type 0} (page : GetDeviceAlertsResponse) (s : S) (failure : Option Error)
        → encoding_error page ≡ failure
        → P
        → IsAlertsAnswer P (rest_result order (written 200 page failure, s))
    written_answer page s none e p = (refl, p)
    written_answer page s (some x) e p =
        rw (plain_rest order x (page_plain page x e)) (inr (refl, refl, p))

    alerts_verdict :
        {S P : Type 0} (x : Outcome GetDeviceAlertsResponse × S)
        → IsVerdict P x
        → IsAlertsAnswer P
            (rest_result order (next x λ page. pure (written 200 page (encoding_error page))))
    unfolding to_rest_error rest_error as_echo_http as_bad_request
    alerts_verdict _ (done a s p) = written_answer a s (encoding_error a) refl p
    alerts_verdict _ (refused vs s n) = inl (refl, refl, n)
    alerts_verdict _ (failed e s h p) = rw (plain_rest order e h) (inr (refl, refl, p))
    alerts_verdict _ (crashed s p) = p

    -- A REST call that gets alerts and whose request binds is answered 400 if the request is not acceptable
    -- or its page token not decodable. Otherwise it is answered 200 with a page, or 500 without the cause,
    -- or it panics, whatever the database holds and whatever fails, if encoding a page token or a page as JSON
    -- fails only with errors that are not about requests.
    pub get_device_alerts-IsAlertsAnswer :
        {C : Type 0} (bind : C → Outcome GetDeviceAlertsRequest) (c : C)
        (req : GetDeviceAlertsRequest) (w : World Db)
        → bind c ≡ ok req
        → IsAlertsAnswer (IsQueryable req × IsDecodable j req.page_token) (
            echo_error_middleware order
              (echo_get_device_alerts device_repository j encoding_error bind)
              c
              w)
    unfolding echo_error_middleware echo_get_device_alerts
    get_device_alerts-IsAlertsAnswer bind c req w bound = rw bound (
        alerts_verdict (get_device_alerts device_repository j req w)
          (get_device_alerts-IsVerdict req w))
