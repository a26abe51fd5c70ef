-- ===== src/System/Panics.antt =====
-- Where getting alerts panics, over the SQLite repository.
use iot_metrics.Base.{
  ℕ, ◌≤◌, ◌<◌, ◌≡◌, refl, ◌≢◌, ◌↔◌, inl, inr, Option, none, some, pos, arith, Bool-cases,
  Option-cases, eq_iff,
}
use iot_metrics.Device.PageToken.{
  TokenJson, IsTokenJson, decode_page_token, encode_page_token-ne-panic, decode_page_token-ne-panic,
}
use iot_metrics.Device.Service.{
  World, inside, get_device_alerts, clamp_page_size, request_token, response_token, decoded,
  timeframe_of,
}
use iot_metrics.Device.Types.{RepositoryPageToken, GetDeviceAlertsRequest, GetDeviceAlertsResponse}
use iot_metrics.Device.Validation.{validate_get_device_alerts_req}
use iot_metrics.Device.Validation.Laws.{IsQueryable, validate_get_device_alerts_req_iff}
use iot_metrics.Go.Time.{Time}
use iot_metrics.Go.Outcome.{Outcome, ok, err, panic, Call, next, return, wrap_error}
use iot_metrics.Sqlite.Repository
use iot_metrics.Sqlite.Repository.{device_repository, split_peeked, paged, to_alert, cursor}
use iot_metrics.Sqlite.Tables.{Db}
use iot_metrics.System.Alerts.{clamp_page_size-range}
use text.Mathlib.Text.{◌==◌}
use iot_metrics.System.Returns.{
  Returns, call_with, ok-ne-panic, next-Returns, no_token_Returns, timed_Returns, untimed_panic,
  wrapped-Returns, text_ne,
}

module _ (j : TokenJson) (lawful : IsTokenJson j) (req : GetDeviceAlertsRequest)
    (w : World Db) where
  -- A page token of the request that is decoded, but holds no time.
  abbrev pub IsUntimed : Type 0
  IsUntimed =
      (req.page_token ≢ "")
      × ((t : RepositoryPageToken) × (decode_page_token j req.page_token ≡ ok t)
          × (t.last_time ≡ none))

  response_token-ne-panic : (t : Option RepositoryPageToken) → response_token j t ≢ panic
  unfolding response_token
  response_token-ne-panic none = ok-ne-panic ""
  response_token-ne-panic (some t) = encode_page_token-ne-panic j lawful t

  -- The rest of the call behind the token.
  abbrev after_token : Option RepositoryPageToken → Call (World Db) GetDeviceAlertsResponse
  after_token token v =
      next
        (wrap_error "get device alerts" (
          inside v (
            Repository.get_device_alerts req.device_id (timeframe_of req)
              (record { size = clamp_page_size req.page_size; token = token }) v.repo)))
        λ page v'.
          next (response_token j page.next_page_token, v')
            λ text. return (record { alerts = page.items; next_page_token = text })

  after_token-Returns :
      (token : Option RepositoryPageToken) (n : ℕ)
      → clamp_page_size req.page_size ≡ pos n
      → Returns (call_with req.device_id (timeframe_of req) n w.repo token)
      → Returns (after_token token w)
  after_token-Returns token n e h = rw e (
      next-Returns _ _ (wrapped-Returns "get device alerts" w _ h) λ page v.
        next-Returns (response_token j page.next_page_token, v) _
          (response_token-ne-panic page.next_page_token) (λ text s. ok-ne-panic _))

  decoded-some :
      (o : Outcome RepositoryPageToken) (t : RepositoryPageToken)
      → decoded o ≡ ok (some t)
      → o ≡ ok t
  decoded-some (ok u) t h = cc
  decoded-some (err e) t h = cc
  decoded-some panic t h = cc

  decoded-ne-panic : (o : Outcome RepositoryPageToken) → o ≢ panic → decoded o ≢ panic
  decoded-ne-panic (ok u) h = λ g. cc
  decoded-ne-panic (err e) h = λ g. cc
  decoded-ne-panic panic h = absurd (h refl)

  request_token-some :
      (t : RepositoryPageToken)
      → request_token j req.page_token ≡ ok (some t)
      → (req.page_token ≢ "") × (decode_page_token j req.page_token ≡ ok t)
  unfolding request_token
  request_token-some t h = elim (Bool-cases (req.page_token == "")) [
    | inl e ↦ cc (rw (e, request_token) at h)
    | inr e ↦ (
      λ same. cc (e, (eq_iff req.page_token "").1 same),
      decoded-some _ t (rw (e, request_token) at h),
    )
  ]

  request_token-ne-panic : request_token j req.page_token ≢ panic
  unfolding request_token
  request_token-ne-panic = elim (Bool-cases (req.page_token == "")) [
    | inl e ↦ rw e (ok-ne-panic none)
    | inr e ↦ rw e (decoded-ne-panic _ (decode_page_token-ne-panic j lawful req.page_token))
  ]

  panic_untimed :
      IsQueryable req
      → (o : Outcome (Option RepositoryPageToken)) → request_token j req.page_token ≡ o
      → (next (o, w) after_token).0 ≡ panic
      → IsUntimed
  panic_untimed accepted o e h = go o e h
    where
      size : (n : ℕ) × (clamp_page_size req.page_size ≡ pos n) × (0 < n) × (n ≤ 250)
      size = clamp_page_size-range req.page_size accepted.page_size

      timed :
          (t : RepositoryPageToken) (lt : Option Time)
          → t.last_time ≡ lt
          → request_token j req.page_token ≡ ok (some t)
          → (after_token (some t) w).0 ≡ panic
          → IsUntimed
      timed t none missing e h =
          let (given, is_t) = request_token-some t e in (given, (t, is_t, missing))
      timed t (some time) there e h = absurd (
          after_token-Returns (some t) size.0 size.1
            (timed_Returns req.device_id (timeframe_of req) size.0 w.repo t time there size.2
              (omega (arith, size.3)))
            h)

      go :
          (o : Outcome (Option RepositoryPageToken))
          → request_token j req.page_token ≡ o
          → (next (o, w) after_token).0 ≡ panic
          → IsUntimed
      go (ok none) e h = absurd (
          after_token-Returns none size.0 size.1
            (no_token_Returns req.device_id (timeframe_of req) size.0 w.repo size.2
              (omega (arith, size.3)))
            h)
      go (ok (some t)) e h = timed t t.last_time refl e h
      go (err x) e h = cc
      go panic e h = absurd (request_token-ne-panic e)

  untimed_token :
      IsUntimed
      → (t : RepositoryPageToken) × (request_token j req.page_token ≡ ok (some t))
        × (t.last_time ≡ none)
  unfolding request_token
  untimed_token (given, (t, is_t, missing)) = (t, rw (text_ne req.page_token given, is_t), missing)

  untimed_panics :
      IsQueryable req → IsUntimed → (get_device_alerts device_repository j req w).0 ≡ panic
  unfolding get_device_alerts
  untimed_panics valid untimed =
      let (t, is_t, missing) = untimed_token untimed in
      let (n, is_n, _, _) = clamp_page_size-range req.page_size valid.page_size in
      rw (
        (validate_get_device_alerts_req_iff req).1 valid,
        is_t,
        is_n,
        untimed_panic req.device_id (timeframe_of req) n w.repo t missing,
      )

  -- Over the SQLite repository, whatever is stored and whatever fails, `GetDeviceAlerts` panics exactly
  -- when the request is accepted and its page token is decoded to one without a time: the repository
  -- dereferences the missing `LastTime`.
  pub get_device_alerts-panic_iff :
      ((get_device_alerts device_repository j req w).0 ≡ panic) ↔ (IsQueryable req × IsUntimed)
  unfolding get_device_alerts
  get_device_alerts-panic_iff = (
    λ h. elim (Option-cases (validate_get_device_alerts_req req)) [
      | inl accepted ↦
          let valid = (validate_get_device_alerts_req_iff req).0 accepted in
          (valid, panic_untimed valid _ refl (rw accepted at h))
      | inr (e, rejected) ↦ cc (rw rejected at h)
    ],
    λ h. untimed_panics h.0 h.1,
  )
