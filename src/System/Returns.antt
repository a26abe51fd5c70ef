-- ===== src/System/Returns.antt =====
-- Where the pages of the SQLite repository are returned without a panic.
use iot_metrics.Base.{
  ℕ, suc, ◌^◌, ◌<◌, ◌≡◌, refl, sym, subst, ◌≢◌, inl, inr, String, false, List, [], ◌∷◌, Option,
  none, some, pos, arith, Bool-cases, eq_iff, drop_last, last-split,
}
use iot_metrics.Device.Service.{World, inside}
use iot_metrics.Device.Types.{RepositoryPage, RepositoryPageToken, Timeframe, Alert}
use iot_metrics.Go.Time.{Time}
use iot_metrics.Go.Outcome.{Outcome, ok, err, panic, Call, next, wrap_error}
use iot_metrics.Sqlite.Queries
use iot_metrics.Sqlite.Repository
use iot_metrics.Sqlite.Repository.{device_repository, split_peeked, paged, to_alert, cursor}
use iot_metrics.Sqlite.Repository.Walk.{page_limit}
use iot_metrics.Sqlite.Tables.{Row, Db, Fault, run_next}
use text.Mathlib.Text.{◌==◌}

abbrev pub Returns : {S A : Type 0} → Outcome A × S → Type 0
Returns x = x.0 ≢ panic

pub ok-ne-panic : {A : Type 0} (a : A) → ok a ≢ panic
ok-ne-panic a e = cc

pub split_peeked-ne-panic :
    {V : Type 0} (rows : List (Row V)) (n : ℕ) → 0 < n → split_peeked rows (pos (suc n)) ≢ panic
unfolding split_peeked
split_peeked-ne-panic [] n h = ground arith
split_peeked-ne-panic (x ∷ []) n h = ground arith
split_peeked-ne-panic (x ∷ y ∷ rows) n h =
    let (front, z, e, f) = last-split x (drop_last (y ∷ rows)) in ground (arith, f)

pub query-Returns : (p : Queries.PageParams) (db : Db) → Returns (Queries.get_device_alerts p db)
unfolding Queries.get_device_alerts
query-Returns p db = go db.faults
  where
    go :
        (faults : List (Option Fault))
        → Returns (run_next faults (λ d. (ok (Queries.select_page p d.alerts.rows), d)) db)
    go [] = ok-ne-panic _
    go (none ∷ rest) = ok-ne-panic _
    go (some fault ∷ rest) = λ e. cc

pub next-Returns :
    {S A B : Type 0} (x : Outcome A × S) (k : A → Call S B)
    → Returns x
    → ((a : A) (s : S) → Returns (k a s))
    → Returns (next x k)
next-Returns (ok a, s) k h f = f a s
next-Returns (err e, s) k h f = λ g. cc
next-Returns (panic, s) k h f = absurd (h refl)

pub paged-ne-panic :
    {V A : Type 0} (f : Row V → A) (o : Outcome (List (Row V) × Option RepositoryPageToken))
    → o ≢ panic
    → paged f o ≢ panic
paged-ne-panic f (ok _) h = ok-ne-panic _
paged-ne-panic f (err e) h = λ g. cc
paged-ne-panic f panic h = absurd (h refl)

module _ (id : String) (tf : Timeframe) (n : ℕ) (db : Db) where
  abbrev pub call_with : Option RepositoryPageToken → Outcome (RepositoryPage Alert) × Db
  call_with token = Repository.get_device_alerts id tf (record { size = pos n; token = token }) db

  -- A page of one item or more is returned, if its token has a time or there is no token.
  pub rows_Returns :
      (p : Queries.PageParams)
      → 0 < n
      → p.limit ≡ pos (suc n)
      → Returns (
          next
            (Queries.get_device_alerts p db)
            λ rows. Repository.pure (paged to_alert (split_peeked rows p.limit)))
  rows_Returns p h e =
      next-Returns (Queries.get_device_alerts p db) _ (query-Returns p db) λ rows d.
        paged-ne-panic to_alert (split_peeked rows p.limit) (rw e (split_peeked-ne-panic rows n h))

  pub no_token_Returns : 0 < n → suc n < 2 ^ 63 → Returns (call_with none)
  unfolding Repository.get_device_alerts
  no_token_Returns h k = rows_Returns _ h (page_limit n k)

  pub timed_Returns :
      (t : RepositoryPageToken) (time : Time)
      → t.last_time ≡ some time
      → 0 < n
      → suc n < 2 ^ 63
      → Returns (call_with (some t))
  unfolding Repository.get_device_alerts
  timed_Returns t time e h k =
      subst (λ lt. Returns (call_with (some (record t { last_time = lt })))) (sym e)
        (rows_Returns _ h (page_limit n k))

  pub untimed_panic :
      (t : RepositoryPageToken) → t.last_time ≡ none → call_with (some t) ≡ (panic, db)
  unfolding Repository.get_device_alerts
  untimed_panic t e =
      subst (λ lt. call_with (some (record t { last_time = lt })) ≡ (panic, db)) (sym e) refl

pub wrapped-Returns :
    {S A : Type 0} (text : String) (w : World S) (x : Outcome A × S)
    → Returns x
    → Returns (wrap_error text (inside w x))
wrapped-Returns text w (ok a, s) h = ok-ne-panic a
wrapped-Returns text w (err e, s) h = λ g. cc
wrapped-Returns text w (panic, s) h = absurd (h refl)

pub text_ne : (text : String) → text ≢ "" → (text == "") ≡ false
text_ne text h = elim (Bool-cases (text == "")) [
  | inl e ↦ absurd (h ((eq_iff text "").0 e))
  | inr e ↦ e
]
