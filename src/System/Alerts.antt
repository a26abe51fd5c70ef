-- ===== src/System/Alerts.antt =====
-- A client that follows the page tokens of `Service.GetDeviceAlerts` over the SQLite repository.
use iot_metrics.Base.{
  ℕ, zero, suc, ◌≤◌, ◌<◌, ◌≡◌, refl, sym, ap, ◌∙◌, subst, ◌≢◌, inl, inr, String, Bool, true, false,
  List, [], ◌∷◌, ◌++◌, map, Option, none, some, ℤ, pos, arith, pos_part, ◌≤ℤ◌, Bool-cases, eq_iff,
  length, length-append, In, In-append_right,
}
use iot_metrics.Device.PageToken.{
  TokenJson, IsTokenJson, encode_page_token, decode-encode_page_token, encode_page_token-ne-nil,
}
use iot_metrics.Device.Service.{
  World, get_device_alerts, clamp_page_size, request_token, response_token, timeframe_of,
}
use iot_metrics.Device.Types.{RepositoryPage, RepositoryPageToken, GetDeviceAlertsRequest, Alert}
use iot_metrics.Device.Validation.{validate_get_device_alerts_req}
use iot_metrics.Device.Validation.Laws.{IsQueryable, validate_get_device_alerts_req_iff}
use iot_metrics.Go.Errors.{other}
use iot_metrics.Go.Outcome.{Outcome, ok, err, Call, next, return}
use iot_metrics.Sqlite.Repository
use iot_metrics.Sqlite.Repository.{device_repository, token_of, to_alert, paged}
use iot_metrics.Sqlite.Repository.Listing.{IsListing, listing-IsListing, length-listing}
use iot_metrics.Sqlite.Repository.Paging.{IsCut, last_page, more_pages, split_peeked-IsCut, listing}
use iot_metrics.Sqlite.Repository.Valid.{IsReachable, IsReachable-IsValid}
use iot_metrics.Sqlite.Repository.Following.{IsLeft, at_start, IsLeft-more, IsLeft-In}
use iot_metrics.Sqlite.Repository.Walk.{alerts_cut}
use iot_metrics.Sqlite.Queries.Order.{HasKeys}
use iot_metrics.Sqlite.Tables.{Row, AlertValues, Db}
use mathlib.Core.List.{append_assoc, map-append}
use text.Mathlib.Text.{◌==◌}

-- A request that was accepted asks the repository for 1 to 250 items.
pub clamp_page_size-range :
    (size : ℤ) → pos 0 ≤ℤ size → (n : ℕ) × (clamp_page_size size ≡ pos n) × (0 < n) × (n ≤ 250)
unfolding clamp_page_size
clamp_page_size-range size h =
    (pos_part (clamp_page_size size), ground arith, ground arith, ground arith)

-- The alerts of a page, and those of the pages behind it unless it is the last.
abbrev join_pages :
    Bool → List Alert → World Db → Outcome (List Alert) × World Db → Outcome (List Alert) × World Db
join_pages true alerts w rest = (ok alerts, w)
join_pages false alerts w rest = next rest λ more. return (alerts ++ more)

module _ (j : TokenJson) where
  -- At most `fuel` pages of a request, joined: each further page is asked for by the token text of
  -- the page before, and the empty text ends the walk.
  unfoldable pub walk_pages : GetDeviceAlertsRequest → ℕ → String → Call (World Db) (List Alert)
  walk_pages req zero text w = (err (other "out of fuel"), w)
  walk_pages req (suc fuel) text w =
      next (get_device_alerts device_repository j (record req { page_token = text }) w) λ res w'.
        let rest = walk_pages req fuel res.next_page_token w' in
        join_pages (res.next_page_token == "") res.alerts w' rest

  -- Every page token that rows of a list can give is encoded, as it is for times that JSON can hold.
  abbrev pub Encodes : List (Row AlertValues) → Type 0
  Encodes rows =
      (row : Row AlertValues)
      → In row rows
      → (text : String) × (encode_page_token j (token_of row) ≡ ok text)

  -- The token that a text stands for.
  data IsTokenText : String → Option RepositoryPageToken → Type 0 where
    no_token : IsTokenText "" none
    token_text :
        {text : String} {t : RepositoryPageToken}
        → encode_page_token j t ≡ ok text
        → IsTokenText text (some t)

  not_empty : (text : String) → text ≢ "" → (text == "") ≡ false
  not_empty text h = elim (Bool-cases (text == "")) [
    | inl e ↦ absurd (h ((eq_iff text "").0 e))
    | inr e ↦ e
  ]

  request_token-IsTokenText :
      {text : String} {token : Option RepositoryPageToken}
      → IsTokenJson j
      → IsTokenText text token
      → request_token j text ≡ ok token
  unfolding request_token
  request_token-IsTokenText lawful no_token = refl
  request_token-IsTokenText lawful (token_text {text} {t} e) = rw (
    not_empty text (encode_page_token-ne-nil j lawful t text e),
    decode-encode_page_token j lawful t text e,
  )

  module _ (lawful : IsTokenJson j) (req : GetDeviceAlertsRequest) (accepted : IsQueryable req)
      (w : World Db) where
    abbrev page_size : ℕ
    page_size = (clamp_page_size-range req.page_size accepted.page_size).0

    still_accepted :
        (text : String) → validate_get_device_alerts_req (record req { page_token = text }) ≡ none
    still_accepted text =
        (validate_get_device_alerts_req_iff (record req { page_token = text })).1 (record {
          device = accepted.device;
          start = accepted.start;
          end = accepted.end;
          page_size = accepted.page_size;
        })

    -- One page of the service, from the page of the repository.
    service_page :
        (text : String) (token : Option RepositoryPageToken) (page : RepositoryPage Alert)
        (next_text : String)
        → IsTokenText text token
        → Repository.get_device_alerts req.device_id
            (timeframe_of req)
            (record { size = pos page_size; token = token })
            w.repo
          ≡ (ok page, w.repo)
        → response_token j page.next_page_token ≡ ok next_text
        → get_device_alerts device_repository j (record req { page_token = text }) w
          ≡ (ok (record { alerts = page.items; next_page_token = next_text }), w)
    unfolding get_device_alerts
    service_page text token page next_text names e f = rw (
      still_accepted text,
      request_token-IsTokenText lawful names,
      (clamp_page_size-range req.page_size accepted.page_size).1,
      e,
      f,
    )

    module _ (no_faults : w.repo.faults ≡ []) (reached : IsReachable w.repo)
        (encodes : Encodes w.repo.alerts.rows) where
      abbrev all_rows : List (Row AlertValues)
      all_rows = listing req.device_id (timeframe_of req) w.repo.alerts.rows

      abbrev Walks : ℕ → Type 0
      Walks fuel =
          (text : String) (token : Option RepositoryPageToken) (left : List (Row AlertValues))
          → IsTokenText text token
          → IsLeft all_rows token left
          → length left < fuel
          → walk_pages req fuel text w ≡ (ok (map to_alert left), w)

      keys : HasKeys w.repo.alerts.rows
      keys = (IsReachable-IsValid reached).alerts.keys

      -- The token of a row that is left is encoded.
      left_encodes :
          {token : Option RepositoryPageToken} (left front : List (Row AlertValues))
          (r : Row AlertValues) (rest : List (Row AlertValues))
          → IsLeft all_rows token left
          → left ≡ front ++ r ∷ rest
          → (text : String) × (encode_page_token j (token_of r) ≡ ok text)
      left_encodes left front r rest at whole = encodes r (stored r listed)
        where
          listed : In r all_rows
          listed =
              IsLeft-In r at
                (subst (In r) (sym whole) (In-append_right r front (r ∷ rest) (inl refl)))

          stored : (a : Row AlertValues) → In a all_rows → In a w.repo.alerts.rows
          stored a h =
              (((listing-IsListing req.device_id (timeframe_of req) w.repo.alerts.rows
                    keys).complete
                  a).0
                h).0

      walk_page :
          (fuel : ℕ) (text : String) (token : Option RepositoryPageToken)
          (left : List (Row AlertValues))
          (o : Outcome (List (Row AlertValues) × Option RepositoryPageToken))
          → Walks fuel
          → IsTokenText text token
          → IsLeft all_rows token left
          → length left < suc fuel
          → Repository.get_device_alerts req.device_id
              (timeframe_of req)
              (record { size = pos page_size; token = token })
              w.repo
            ≡ (paged to_alert o, w.repo)
          → IsCut page_size left o
          → walk_pages req (suc fuel) text w ≡ (ok (map to_alert left), w)
      unfolding walk_pages response_token
      walk_page fuel text token left _ ih names at short e (last_page fits) =
          rw (service_page text token _ "" names e refl)
      walk_page fuel text token left _ ih names at short e (more_pages front r rest whole len) =
          let (next_text, encoded) = left_encodes left front r rest at whole in
          rw
            (
              service_page text token _ next_text names e encoded,
              not_empty next_text
                  (encode_page_token-ne-nil j lawful (token_of r) next_text encoded),
              ih next_text (some (token_of r)) rest (token_text encoded)
                  (IsLeft-more front r rest at whole) shorter,
            )
            (ap (λ items. (ok items, w))
              (sym (map-append to_alert (front ++ r ∷ []) rest)
                ∙ ap (map to_alert) (append_assoc front (r ∷ []) rest ∙ sym whole)))
        where
          shorter : length rest < fuel
          shorter = omega (arith, length-append {0} front (r ∷ rest), ap length whole)

      walk_rest : (fuel : ℕ) → Walks fuel
      walk_rest zero text token left names at short = elim short [ ]
      walk_rest (suc fuel) text token left names at short =
          let range = clamp_page_size-range req.page_size accepted.page_size in
          walk_page fuel text token left _ (walk_rest fuel) names at short
            (alerts_cut req.device_id (timeframe_of req) page_size (omega (arith, range.3)) w.repo
              no_faults keys token left at)
            (split_peeked-IsCut page_size left range.2)

  -- Following the page tokens of the service from the empty text on, for a request that was accepted,
  -- gives exactly those of the device's alerts whose second meets the request's timeframe, the latest
  -- first and each once, whatever page size was asked for, over any database that calls of the
  -- repository have made, if no statement fails, the tokens of the stored alerts are encoded, and the
  -- client may ask for more pages than there are alerts. An alert is stored with its second, and the
  -- timeframe is of its bounds: a start within a second takes in all of that second. The state stays as
  -- it is.
  pub walk_pages_all :
      (lawful : IsTokenJson j) (req : GetDeviceAlertsRequest) (w : World Db) (fuel : ℕ)
      → IsQueryable req
      → w.repo.faults ≡ []
      → IsReachable w.repo
      → Encodes w.repo.alerts.rows
      → length w.repo.alerts.rows < fuel
      → (found : List (Row AlertValues)) × IsListing req.device_id
          (timeframe_of req)
          w.repo.alerts.rows
          found
        × (walk_pages req fuel "" w ≡ (ok (map to_alert found), w))
  walk_pages_all lawful req w fuel accepted no_faults reached encodes enough =
      let rows = w.repo.alerts.rows in
      let tf = timeframe_of req in
      (
        listing req.device_id tf rows,
        listing-IsListing req.device_id tf rows (IsReachable-IsValid reached).alerts.keys,
        walk_rest lawful req accepted w no_faults reached encodes fuel "" none _ no_token at_start
            (omega (arith, length-listing req.device_id tf rows)),
      )
