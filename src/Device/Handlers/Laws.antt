-- ===== src/Device/Handlers/Laws.antt =====
-- The two protocols agree: a message that both can express does the same to the service.
use text.Mathlib.Text.{◌==◌}
use iot_metrics.Base.{
  ◌≡◌, ◌≢◌, ◌⊎◌, inl, inr, refl, String, List, [], ◌∷◌, map, Option, none, some, Bool-cases, eq_iff,
}
use iot_metrics.Go.Errors.{Error}
use iot_metrics.Go.Time.{Time}
use iot_metrics.Device.Handlers.{
  start_of, end_of, written, to_configure_device, to_record_metric, to_get_device_alerts,
  to_alerts_response, connect_configure_device, connect_record_metric, connect_get_device_alerts,
  echo_configure_device, echo_record_metric, echo_get_device_alerts,
}
use iot_metrics.Device.PageToken.{TokenJson}
use iot_metrics.Device.Proto
use iot_metrics.Device.Repository.{Repository}
use iot_metrics.Device.Service.{World, pure}
use iot_metrics.Device.Types.{
  ConfigureDeviceRequest, RecordMetricRequest, GetDeviceAlertsRequest, GetDeviceAlertsResponse,
  ProtoReason, ProtoAlert, Alert, reason_proto, alert_proto,
}
use iot_metrics.Go.Outcome.{Outcome, ok, err, panic, next, return}
use iot_metrics.Http.Response.{Response, no_content, json}

-- The same ending, with one result for the other.
abbrev pub Agree : {S A B : Type 0} → (A → B → Type 0) → Outcome A × S → Outcome B × S → Type 0
Agree R (ok a, s) (ok b, t) = R a b × (s ≡ t)
Agree R (err e, s) (err f, t) = (e ≡ f) × (s ≡ t)
Agree R (panic, s) (panic, t) = s ≡ t
Agree R _ _ = ⊥

-- Two ways to finish after one call.
Agree-next :
    {S A B C : Type 0} (R : B → C → Type 0) (f : A → B) (g : A → C) (x : Outcome A × S)
    → ((a : A) → R (f a) (g a))
    → Agree R (next x λ a. return (f a)) (next x λ a. return (g a))
Agree-next R f g (ok a, s) h = (h a, refl)
Agree-next R f g (err e, s) h = (refl, refl)
Agree-next R f g (panic, s) h = refl

-- A field of a request for alerts that stands in the optional timeframe of its message.
abbrev pub SameBound :
    (Proto.Timeframe → Option Time) → Option Proto.Timeframe → Option Time → Type 0
SameBound field none bound = bound ≡ none
SameBound field (some tf) bound = bound ≡ field tf

-- A message and a REST request ask for the same alerts.
pub record IsSameQuery (msg : Proto.GetDeviceAlertsRequest) (req : GetDeviceAlertsRequest)
    : Type 0 where
  pub device : req.device_id ≡ msg.device_id
  pub start : SameBound (λ tf. tf.start) msg.timeframe req.timeframe_start
  pub end : SameBound (λ tf. tf.end) msg.timeframe req.timeframe_end
  pub page_size : req.page_size ≡ msg.page_size
  pub page_token : req.page_token ≡ msg.page_token

-- The reason of a protobuf alert for the text of a reason.
abbrev pub SameReason : ProtoReason → String → Type 0
SameReason ProtoReason.reason_temperature_high text = text ≡ "TEMPERATURE_HIGH"
SameReason ProtoReason.reason_battery_low text = text ≡ "BATTERY_LOW"
SameReason ProtoReason.reason_unspecified text =
    (text ≢ "TEMPERATURE_HIGH") × (text ≢ "BATTERY_LOW")

pub record IsSameAlert (p : ProtoAlert) (a : Alert) : Type 0 where
  pub reason : SameReason p.reason a.reason
  pub description : p.description ≡ a.desc
  pub timestamp : p.timestamp ≡ a.time

abbrev pub SameAlerts : List ProtoAlert → List Alert → Type 0
SameAlerts [] [] = Unit
SameAlerts (p ∷ ps) (a ∷ alerts) = IsSameAlert p a × SameAlerts ps alerts
SameAlerts _ _ = ⊥

-- A page of protobuf alerts is one of the service, alert by alert.
abbrev pub SamePage : Proto.GetDeviceAlertsResponse → GetDeviceAlertsResponse → Type 0
SamePage page p = SameAlerts page.alerts p.alerts × (page.next_page_token ≡ p.next_page_token)

-- How REST ends where gRPC ends in one way: with the same page and 200, unless encoding it as JSON fails,
-- which REST then fails with; or with the same error or panic.
abbrev pub AlertsAgree :
    {S : Type 0}
    → (GetDeviceAlertsResponse → Option Error)
    → Outcome Proto.GetDeviceAlertsResponse × S
    → Outcome (Response GetDeviceAlertsResponse) × S
    → Type 0
AlertsAgree encoding_error (ok page, s) (o, t) =
    (s ≡ t)
    × ((p : GetDeviceAlertsResponse) × SamePage page p
        × (((encoding_error p ≡ none) × (o ≡ ok (json 200 p)))
            ⊎ ((e : Error) × (encoding_error p ≡ some e) × (o ≡ err e))))
AlertsAgree encoding_error (err e, s) (o, t) = (s ≡ t) × (o ≡ err e)
AlertsAgree encoding_error (panic, s) (o, t) = (s ≡ t) × (o ≡ panic)

start_of-eq :
    (tf : Option Proto.Timeframe) (bound : Option Time)
    → SameBound (λ tf. tf.start) tf bound
    → bound ≡ start_of tf
start_of-eq none bound h = h
start_of-eq (some tf) bound h = h

end_of-eq :
    (tf : Option Proto.Timeframe) (bound : Option Time)
    → SameBound (λ tf. tf.end) tf bound
    → bound ≡ end_of tf
end_of-eq none bound h = h
end_of-eq (some tf) bound h = h

query_of :
    (msg : Proto.GetDeviceAlertsRequest) (req : GetDeviceAlertsRequest)
    → IsSameQuery msg req
    → req ≡ to_get_device_alerts msg
query_of msg req h =
    let start = start_of-eq msg.timeframe req.timeframe_start h.start in
    let end = end_of-eq msg.timeframe req.timeframe_end h.end in
    λ i. record {
      device_id = h.device i;
      timeframe_start = start i;
      timeframe_end = end i;
      page_size = h.page_size i;
      page_token = h.page_token i;
    }

reason_proto-SameReason : (text : String) → SameReason (reason_proto text) text
unfolding reason_proto
reason_proto-SameReason text = elim (Bool-cases (text == "TEMPERATURE_HIGH")) [
  | inl e ↦ rw e ((eq_iff text "TEMPERATURE_HIGH").0 e)
  | inr e ↦ elim (Bool-cases (text == "BATTERY_LOW")) [
    | inl f ↦ rw (e, f) ((eq_iff text "BATTERY_LOW").0 f)
    | inr f ↦
        rw (e, f)
          (
            λ h. cc (e, (eq_iff text "TEMPERATURE_HIGH").1 h),
            λ h. cc (f, (eq_iff text "BATTERY_LOW").1 h),
          )
  ]
]

alert_proto-SameAlerts : (alerts : List Alert) → SameAlerts (map alert_proto alerts) alerts
unfolding alert_proto
alert_proto-SameAlerts [] = tt
alert_proto-SameAlerts (a ∷ alerts) = (
  record { reason = reason_proto-SameReason a.reason; description = refl; timestamp = refl },
  alert_proto-SameAlerts alerts,
)

written-agrees :
    (p : GetDeviceAlertsResponse) (failure : Option Error)
    → ((failure ≡ none) × (written 200 p failure ≡ ok (json 200 p)))
      ⊎ ((e : Error) × (failure ≡ some e) × (written 200 p failure ≡ err e))
written-agrees p none = inl (refl, refl)
written-agrees p (some e) = inr (e, refl, refl)

AlertsAgree-next :
    {S : Type 0} (encoding_error : GetDeviceAlertsResponse → Option Error)
    (x : Outcome GetDeviceAlertsResponse × S)
    → AlertsAgree encoding_error
        (next x λ res. return (to_alerts_response res))
        (next x λ res. pure (written 200 res (encoding_error res)))
AlertsAgree-next encoding_error (ok p, s) =
    (refl, (p, (alert_proto-SameAlerts p.alerts, refl), written-agrees p (encoding_error p)))
AlertsAgree-next encoding_error (err e, s) = (refl, refl)
AlertsAgree-next encoding_error (panic, s) = (refl, refl)

-- The request that a REST call binds, and the service request behind a gRPC message, are one.
module _ (r : Repository) {C : Type 0} where
  -- Configuring a device over gRPC and over REST, with one request behind both, ends alike and
  -- leaves the same state; REST answers success with 201 and no body.
  pub configure_device-Agree :
      (bind : C → Outcome ConfigureDeviceRequest) (c : C) (msg : Proto.ConfigureDeviceRequest)
      (w : World r.State)
      → bind c ≡ ok (to_configure_device msg)
      → Agree
          (λ _ res. res ≡ no_content 201)
          (connect_configure_device r msg w)
          (echo_configure_device r bind c w)
  unfolding connect_configure_device echo_configure_device
  configure_device-Agree bind c msg w bound =
      rw bound (Agree-next _ (λ _. tt) (λ _. no_content 201) _ (λ _. refl))

  -- Recording a metric over gRPC and over REST, with one request behind both, ends alike and leaves
  -- the same state; REST answers success with 201 and no body.
  pub record_metric-Agree :
      (bind : C → Outcome RecordMetricRequest) (c : C) (msg : Proto.RecordMetricRequest)
      (w : World r.State)
      → bind c ≡ ok (to_record_metric msg)
      → Agree
          (λ _ res. res ≡ no_content 201)
          (connect_record_metric r msg w)
          (echo_record_metric r bind c w)
  unfolding connect_record_metric echo_record_metric
  record_metric-Agree bind c msg w bound =
      rw bound (Agree-next _ (λ _. tt) (λ _. no_content 201) _ (λ _. refl))

  -- Getting alerts over gRPC and over REST, of a message and a REST request that ask for the same, leaves
  -- the same state and ends with the same error or panic, or with the same page, alert by alert. REST
  -- answers the page with 200, unless encoding it as JSON fails: then it fails with that error.
  pub get_device_alerts-Agree :
      (j : TokenJson) (encoding_error : GetDeviceAlertsResponse → Option Error)
      (bind : C → Outcome GetDeviceAlertsRequest) (c : C) (req : GetDeviceAlertsRequest)
      (msg : Proto.GetDeviceAlertsRequest) (w : World r.State)
      → bind c ≡ ok req
      → IsSameQuery msg req
      → AlertsAgree encoding_error
          (connect_get_device_alerts r j msg w)
          (echo_get_device_alerts r j encoding_error bind c w)
  unfolding connect_get_device_alerts echo_get_device_alerts
  get_device_alerts-Agree j encoding_error bind c req msg w bound same =
      rw (bound, query_of msg req same) (AlertsAgree-next encoding_error _)
