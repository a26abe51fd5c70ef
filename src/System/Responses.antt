-- ===== src/System/Responses.antt =====
-- How a call of the service over the SQLite repository ends: done, refused for its request, or failed.
use iot_metrics.Base.{inl, inr, String, List, ◌∷◌, Option-cases}
use iot_metrics.Device.Service.{World, configure_device, record_metric}
use iot_metrics.Device.Types.{ConfigureDeviceRequest, RecordMetricRequest}
use iot_metrics.Device.Validation.{validate_configure_device_req, validate_record_metric_req}
use iot_metrics.Device.Validation.Laws.{
  IsConfigurable, IsRecordable, validate_configure_device_req_iff, validate_record_metric_req_iff,
}
use iot_metrics.Device.Validation.Rejection.{
  validate_configure_device_req-IsRejection, validate_record_metric_req-IsRejection,
}
use iot_metrics.Go.Errors.{Error, bad_request}
use iot_metrics.Go.Outcome.{Outcome, ok, err, panic}
use iot_metrics.Http.Response.{Violations}
use iot_metrics.Sqlite.Repository.{device_repository}
use iot_metrics.Sqlite.Tables.{Db}
use iot_metrics.System.Internal.{
  IsPlain, IsInternal, record_metric-IsInternal, configure_device-IsInternal,
}

-- What a service call that ends in `x` says of the request that satisfies `P` or not.
pub data IsVerdict {S : Type 0} (P : Type 0) : Outcome (Unit {0}) × S → Type 0 where
  done : (s : S) → P → IsVerdict P (ok tt, s)
  refused :
      (x : String × List String) (xs : Violations) (s : S)
      → ¬ P
      → IsVerdict P (err (bad_request (x ∷ xs)), s)
  failed : (e : Error) (s : S) → IsPlain e → P → IsVerdict P (err e, s)

internal-IsVerdict : {S P : Type 0} (x : Outcome (Unit {0}) × S) → IsInternal x → P → IsVerdict P x
internal-IsVerdict (ok tt, s) h p = done s p
internal-IsVerdict (err e, s) h p = failed e s h p
internal-IsVerdict (panic, s) h p = absurd h

pub record_metric-IsVerdict :
    (req : RecordMetricRequest) (w : World Db)
    → IsVerdict (IsRecordable req) (record_metric device_repository req w)
unfolding record_metric
record_metric-IsVerdict req w = elim (Option-cases (validate_record_metric_req req)) [
  | inl e ↦
      internal-IsVerdict (record_metric device_repository req w) (record_metric-IsInternal req w e)
        ((validate_record_metric_req_iff req).0 e)
  | inr (e, rejected) ↦
      let (x, xs, same) = validate_record_metric_req-IsRejection req e rejected in
      rw (rejected, same)
        (refused x xs w λ p. cc (rejected, (validate_record_metric_req_iff req).1 p))
]

pub configure_device-IsVerdict :
    (req : ConfigureDeviceRequest) (w : World Db)
    → IsVerdict (IsConfigurable req) (configure_device device_repository req w)
unfolding configure_device
configure_device-IsVerdict req w = elim (Option-cases (validate_configure_device_req req)) [
  | inl e ↦
      internal-IsVerdict (configure_device device_repository req w)
        (configure_device-IsInternal req w e) ((validate_configure_device_req_iff req).0 e)
  | inr (e, rejected) ↦
      let (x, xs, same) = validate_configure_device_req-IsRejection req e rejected in
      rw (rejected, same)
        (refused x xs w λ p. cc (rejected, (validate_configure_device_req_iff req).1 p))
]
