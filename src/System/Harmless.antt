-- ===== src/System/Harmless.antt =====
-- Getting a page of alerts from the SQLite repository: it may panic, and its errors are plain.
use iot_metrics.Base.{
  inl, inr, String, List, [], ◌∷◌, Bool-cases, Option, none, some, ℤ, pos, eqb_ℤ, length, last?,
  drop_last,
}
use iot_metrics.Device.Service.{World, inside}
use iot_metrics.Device.Types.{Timeframe, RepositoryPageToken}
use iot_metrics.Go.Errors.{as_bad_request, as_echo_http, as_connect}
use iot_metrics.Go.Outcome.{Outcome, ok, err, panic, Call, next, wrap_error}
use iot_metrics.Go.Time.{Time}
use iot_metrics.Sqlite.Queries
use iot_metrics.Sqlite.Repository
use iot_metrics.Sqlite.Repository.{
  device_repository, paged, split_peeked, to_alert, cursor, page_params, with_last, peeked,
}
use iot_metrics.Sqlite.Tables.{Row, AlertValues, Db, Fault, run_next}
use iot_metrics.System.Internal.{IsPlain, IsPlain-fault}

-- A call whose errors, if any, are plain; it may panic.
abbrev pub IsHarmless : {A : Type 0} → Outcome A → Type 0
IsHarmless (ok a) = Unit
IsHarmless (err e) = IsPlain e
IsHarmless panic = Unit

pub next-IsHarmless :
    {S A B : Type 0} (x : Outcome A × S) (k : A → Call S B)
    → IsHarmless x.0
    → ((a : A) (s : S) → IsHarmless (k a s).0)
    → IsHarmless (next x k).0
next-IsHarmless (ok a, s) k h f = f a s
next-IsHarmless (err e, s) k h f = h
next-IsHarmless (panic, s) k h f = tt

pub wrapped-IsHarmless :
    {S A : Type 0} (text : String) (w : World S) (x : Outcome A × S)
    → IsHarmless x.0
    → IsHarmless (wrap_error text (inside w x)).0
unfolding as_bad_request as_echo_http as_connect
wrapped-IsHarmless text w (ok a, s) h = tt
wrapped-IsHarmless text w (err e, s) h = record {
  no_violations = h.no_violations;
  no_echo = h.no_echo;
  no_connect = h.no_connect;
}
wrapped-IsHarmless text w (panic, s) h = tt

query-IsHarmless :
    (p : Queries.PageParams) (db : Db) → IsHarmless (Queries.get_device_alerts p db).0
unfolding Queries.get_device_alerts
query-IsHarmless p db = go db.faults
  where
    go :
        (faults : List (Option Fault))
        → IsHarmless (run_next faults (λ d. (ok (Queries.select_page p d.alerts.rows), d)) db).0
    go [] = tt
    go (none ∷ rest) = tt
    go (some f ∷ rest) = IsPlain-fault f

with_last-IsHarmless :
    (rows : List (Row AlertValues)) (o : Option (Row AlertValues))
    → IsHarmless (paged to_alert (with_last rows o))
with_last-IsHarmless rows none = tt
with_last-IsHarmless rows (some row) = tt

peeked-IsHarmless : (rows : List (Row AlertValues)) → IsHarmless (paged to_alert (peeked rows))
peeked-IsHarmless [] = tt
peeked-IsHarmless (x ∷ xs) = with_last-IsHarmless _ (last? (drop_last (x ∷ xs)))

paged-IsHarmless :
    (rows : List (Row AlertValues)) (limit : ℤ)
    → IsHarmless (paged to_alert (split_peeked rows limit))
unfolding split_peeked
paged-IsHarmless rows limit = elim (Bool-cases (eqb_ℤ (pos (length rows)) limit)) [
  | inl e ↦ rw e (peeked-IsHarmless rows)
  | inr e ↦ rw e tt
]

pub get_alerts-IsHarmless :
    (id : String) (tf : Timeframe) (size : ℤ) (token : Option RepositoryPageToken) (db : Db)
    → IsHarmless (Repository.get_device_alerts id tf (record { size = size; token = token }) db).0
unfolding Repository.get_device_alerts
get_alerts-IsHarmless id tf size none db =
    next-IsHarmless (Queries.get_device_alerts _ db) _ (query-IsHarmless _ db)
      (λ rows d. paged-IsHarmless rows _)
get_alerts-IsHarmless id tf size (some t) db = go t.last_time
  where
    go :
        (lt : Option Time)
        → IsHarmless
            (Repository.get_device_alerts id tf
              (record { size = size; token = some (record t { last_time = lt }) })
              db).0
    go none = tt
    go (some time) =
        next-IsHarmless (Queries.get_device_alerts _ db) _ (query-IsHarmless _ db)
          (λ rows d. paged-IsHarmless rows _)
