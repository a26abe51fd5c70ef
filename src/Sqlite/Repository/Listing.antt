-- ===== src/Sqlite/Repository/Listing.antt =====
-- What a listing holds, said without the program's tests and its sort.
use iot_metrics.Base.{
  ◌≤◌, ◌≡◌, ◌↔◌, ◌⊎◌, String, Bool, true, List, [], ◌∷◌, Option, none, some, ℤ, arith, ◌<ℤ◌, ◌+ℤ◌,
  pos, ◌<◌, eq_iff, and_left, and_right, and_both, In, In-keep, All, All-map, length, length-keep,
  keep,
}
use iot_metrics.Device.Types.{Timeframe}
use iot_metrics.Go.Time.{Time}
use iot_metrics.Sqlite.Queries.{in_window, before, from_start, to_end}
use iot_metrics.Sqlite.Queries.Order.{IsSorted, HasKeys, In-order_by, length-order_by}
use iot_metrics.Sqlite.Repository.{unix_of}
use iot_metrics.Sqlite.Repository.Paging.{listing, listing-IsSorted}
use iot_metrics.Sqlite.Tables.{Row}

-- An instant is earlier than another.
abbrev pub Precedes : Time → Time → Type 0
Precedes t u = (t.secs <ℤ u.secs) ⊎ ((t.secs ≡ u.secs) × (t.nanos < u.nanos))

abbrev second : ℤ → Time
second s = record { secs = s; nanos = 0 }

-- A row stands for the second that begins at its timestamp, since what is stored is cut to the second. A
-- timeframe begins before the end of that second; without a start it always does.
abbrev pub From : Option Time → ℤ → Type 0
From none ts = Unit
From (some start) ts = Precedes start (second (ts +ℤ pos 1))

-- A timeframe does not end before that second begins; without an end it never does.
abbrev pub Until : Option Time → ℤ → Type 0
Until none ts = Unit
Until (some end) ts = ¬ Precedes end (second ts)

from_start_iff : (o : Option Time) (ts : ℤ) → (from_start (unix_of o) ts ≡ true) ↔ From o ts
from_start_iff none ts = ground arith
from_start_iff (some t) ts = unfold ◌+ℤ◌ in ground arith

to_end_iff : (o : Option Time) (ts : ℤ) → (to_end (unix_of o) ts ≡ true) ↔ Until o ts
to_end_iff none ts = ground arith
to_end_iff (some t) ts = ground arith

module _ {V : Type 0} where
  -- A row is of the device, and its second meets the timeframe, whose bounds are of it.
  pub record IsWithin (device_id : String) (tf : Timeframe) (row : Row V) : Type 0 where
    pub device : row.device_id ≡ device_id
    pub from : From tf.start row.timestamp
    pub until : Until tf.end row.timestamp

  -- `a` is later than `b`, or as late with the larger id.
  abbrev pub Later : Row V → Row V → Type 0
  Later a b = (b.timestamp <ℤ a.timestamp) ⊎ ((a.timestamp ≡ b.timestamp) × (b.id <ℤ a.id))

  -- Each row is later than all that follow, so that none stands twice.
  abbrev pub LatestFirst : List (Row V) → Type 0
  LatestFirst [] = Unit
  LatestFirst (x ∷ xs) = All (Later x) xs × LatestFirst xs

  before-Later : (a b : Row V) → before a b ≡ true → Later a b
  unfolding before
  before-Later a b h = ground arith

  IsSorted-LatestFirst : (xs : List (Row V)) → IsSorted xs → LatestFirst xs
  IsSorted-LatestFirst [] s = tt
  IsSorted-LatestFirst (x ∷ xs) s = (All-map xs (before-Later x) s.0, IsSorted-LatestFirst xs s.1)

  in_window_iff :
      (device_id : String) (tf : Timeframe) (row : Row V)
      → (in_window device_id (unix_of tf.start) (unix_of tf.end) row ≡ true)
        ↔ IsWithin device_id tf row
  unfolding in_window
  in_window_iff device_id tf row = (
    λ h. record {
      device = (eq_iff row.device_id device_id).0 (and_left _ _ (and_left _ _ h));
      from = (from_start_iff tf.start row.timestamp).0 (and_right _ _ (and_left _ _ h));
      until = (to_end_iff tf.end row.timestamp).0 (and_right _ _ h);
    },
    λ w.
        and_both
          (and_both ((eq_iff row.device_id device_id).1 w.device)
            ((from_start_iff tf.start row.timestamp).1 w.from))
          ((to_end_iff tf.end row.timestamp).1 w.until),
  )

  -- A listing is all of a device's rows whose second meets a timeframe, the latest first.
  pub record IsListing (device_id : String) (tf : Timeframe) (rows found : List (Row V))
      : Type 0 where
    pub complete : (row : Row V) → In row found ↔ (In row rows × IsWithin device_id tf row)
    pub ordered : LatestFirst found

  listing_complete :
      (device_id : String) (tf : Timeframe) (rows : List (Row V)) (row : Row V)
      → In row (listing device_id tf rows) ↔ (In row rows × IsWithin device_id tf row)
  unfolding listing
  listing_complete device_id tf rows row =
      let p : Row V → Bool = in_window device_id (unix_of tf.start) (unix_of tf.end) in
      (
        λ h.
            let (there, passes) = (In-keep p row rows).0 ((In-order_by row (keep p rows)).0 h) in
            (there, (in_window_iff device_id tf row).0 passes),
        λ h.
            (In-order_by row (keep p rows)).1
              ((In-keep p row rows).1 (h.0, (in_window_iff device_id tf row).1 h.1)),
      )

  pub listing-IsListing :
      (device_id : String) (tf : Timeframe) (rows : List (Row V))
      → HasKeys rows
      → IsListing device_id tf rows (listing device_id tf rows)
  listing-IsListing device_id tf rows keys = record {
    complete = λ row. listing_complete device_id tf rows row;
    ordered = IsSorted-LatestFirst _ (listing-IsSorted device_id tf rows keys);
  }

  pub length-listing :
      (device_id : String) (tf : Timeframe) (rows : List (Row V))
      → length (listing device_id tf rows) ≤ length rows
  unfolding listing
  length-listing device_id tf rows =
      let p : Row V → Bool = in_window device_id (unix_of tf.start) (unix_of tf.end) in
      omega (arith, length-order_by (keep p rows), length-keep {0} p rows)
