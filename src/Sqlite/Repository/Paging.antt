-- ===== src/Sqlite/Repository/Paging.antt =====
-- Pages of a listing, and the walk from page to page.
use iot_metrics.Base.{
  ℕ, zero, suc, ◌+◌, ◌≤◌, ◌<◌, ◌≡◌, refl, sym, ap, subst, ◌∙◌, ◌≢◌, String, Bool, true, false, List,
  [], ◌∷◌, ◌++◌, Option, none, some, ℤ, pos, arith, eqb_ℤ, length, length-append, length-take, take,
  take_all, drop, take-append-drop, last?, last-split, drop_last-take, keep, keep-keep, All,
  All-map, All-keep,
}
use iot_metrics.Device.Types.{RepositoryPageToken, Timeframe}
use iot_metrics.Go.Outcome.{Outcome, ok}
use iot_metrics.Sqlite.Queries.{
  PageParams, in_window, after_cursor, before, order_by, limited, select_page,
}
use iot_metrics.Sqlite.Queries.Order.{
  IsSorted, HasKeys, order_by-IsSorted, keep-order_by, after_cursor-eq, before_irrefl, before_asymm,
}
use iot_metrics.Sqlite.Repository.{unix_of, token_of, with_last, split_peeked}
use iot_metrics.Sqlite.Tables.{Row}
use native.Mathlib.Decide.{dec_lt}
use mathlib.Core.List.{append_assoc}

abbrev pub params_of : String → Timeframe → Option ℤ → Option ℤ → ℤ → PageParams
params_of device_id tf last_ts last_id limit = record {
  device_id = device_id;
  start_ts = unix_of tf.start;
  end_ts = unix_of tf.end;
  last_ts = last_ts;
  last_id = last_id;
  limit = limit;
}

module _ {V : Type 0} where
  -- All rows of a device whose second meets a timeframe, the latest first.
  unfoldable pub listing : String → Timeframe → List (Row V) → List (Row V)
  listing device_id tf rows =
      order_by (keep (in_window device_id (unix_of tf.start) (unix_of tf.end)) rows)

  HasKeys-keep : (p : Row V → Bool) (xs : List (Row V)) → HasKeys xs → HasKeys (keep p xs)
  HasKeys-keep p [] k = tt
  HasKeys-keep p (x ∷ xs) k =
      ground (arith, HasKeys-keep p xs k.1, All-keep (λ y. x.id ≢ y.id) p xs k.0)

  pub listing-IsSorted :
      (device_id : String) (tf : Timeframe) (rows : List (Row V))
      → HasKeys rows
      → IsSorted (listing device_id tf rows)
  unfolding listing
  listing-IsSorted device_id tf rows k = order_by-IsSorted _ (HasKeys-keep _ rows k)

  -- A page's query cuts what follows its cursor out of the listing.
  pub select_page-listing :
      (device_id : String) (tf : Timeframe) (last_ts last_id : Option ℤ) (limit : ℤ)
      (rows : List (Row V))
      → HasKeys rows
      → select_page
          (record {
            device_id = device_id;
            start_ts = unix_of tf.start;
            end_ts = unix_of tf.end;
            last_ts = last_ts;
            last_id = last_id;
            limit = limit;
          })
          rows
        ≡ limited limit (keep (after_cursor last_ts last_id) (listing device_id tf rows))
  unfolding select_page listing
  select_page-listing device_id tf last_ts last_id limit rows k = ap (limited limit) (
      ap order_by (sym (keep-keep (after_cursor last_ts last_id) _ rows))
      ∙ sym (keep-order_by (after_cursor last_ts last_id) _ (HasKeys-keep _ rows k)))

  keep-All : (p : Row V → Bool) (xs : List (Row V)) → All (λ x. p x ≡ true) xs → keep p xs ≡ xs
  keep-All p [] h = refl
  keep-All p (x ∷ xs) h = rw (h.0, keep-All p xs h.1)

  All-middle :
      (P : Row V → Type 0) (front : List (Row V)) (r : Row V) (rest : List (Row V))
      → All P (front ++ r ∷ rest)
      → P r
  All-middle P [] r rest h = h.0
  All-middle P (x ∷ front) r rest h = All-middle P front r rest h.1

  -- Past the cursor of a row of a sorted list lies what follows the row.
  pub keep-after_cursor :
      (front : List (Row V)) (r : Row V) (rest : List (Row V))
      → IsSorted (front ++ r ∷ rest)
      → keep (after_cursor (some r.timestamp) (some r.id)) (front ++ r ∷ rest) ≡ rest
  keep-after_cursor [] r rest s =
      rw (after_cursor-eq r r, before_irrefl r)
        (keep-All (after_cursor (some r.timestamp) (some r.id)) rest
          (All-map rest (λ y h. after_cursor-eq r y ∙ h) s.0))
  keep-after_cursor (x ∷ front) r rest s =
      rw
        (
          after_cursor-eq r x,
          before_asymm x r (All-middle (λ y. before x y ≡ true) front r rest s.0),
        )
        (keep-after_cursor front r rest s.1)

  -- How one page of `n` rows is cut from the rows that are left.
  pub data IsCut (n : ℕ) (left : List (Row V))
      : Outcome (List (Row V) × Option RepositoryPageToken) → Type 0 where
    last_page : length left ≤ n → IsCut n left (ok (left, none))
    more_pages :
        (front : List (Row V)) (r : Row V) (rest : List (Row V))
        → left ≡ front ++ r ∷ rest
        → length front + 1 ≡ n
        → IsCut n left (ok (front ++ r ∷ [], some (token_of r)))

  IsCut-last :
      (n : ℕ) (left : List (Row V))
      → length left ≤ n
      → IsCut n left (split_peeked (take (suc n) left) (pos (suc n)))
  unfolding split_peeked
  IsCut-last n left h = rw (take_all (suc n) left (omega arith)) (rw ne (last_page h))
    where
      ne : eqb_ℤ (pos (length left)) (pos (suc n)) ≡ false
      ne = ground arith

  IsCut-front :
      (n : ℕ) (left page front : List (Row V)) (r : Row V) (rest : List (Row V))
      → page ≡ front ++ r ∷ []
      → last? page ≡ some r
      → page ++ rest ≡ left
      → length page ≡ n
      → IsCut n left (with_last page (last? page))
  IsCut-front n left page front r rest e f whole len =
      rw (f, e)
        (more_pages front r rest
          (sym whole ∙ ap (λ l. l ++ rest) e ∙ append_assoc front (r ∷ []) rest)
          (omega (arith, length-append {0} front (r ∷ []), ap length e)))

  IsCut-more :
      (n : ℕ) (left : List (Row V))
      → 0 < n
      → n < length left
      → IsCut n left (split_peeked (take (suc n) left) (pos (suc n)))
  unfolding split_peeked
  IsCut-more n [] p h = elim h [ ]
  IsCut-more zero (y ∷ ys) p h = elim p [ ]
  IsCut-more (suc m) (y ∷ ys) p h =
      let (front, z, e, f) = last-split y (take m ys) in
      rw full (
        rw (drop_last-take (suc m) (y ∷ ys) h) (
          IsCut-front (suc m) (y ∷ ys) (y ∷ take m ys) front z (drop m ys) e f
            (take-append-drop (suc m) (y ∷ ys)) (omega (arith, length-take {0} m ys))))
    where
      full : eqb_ℤ (pos (length (take (suc (suc m)) (y ∷ ys)))) (pos (suc (suc m))) ≡ true
      full = ground (arith, length-take (suc m) ys)

  pub split_peeked-IsCut :
      (n : ℕ) (left : List (Row V))
      → 0 < n
      → IsCut n left (split_peeked (take (suc n) left) (pos (suc n)))
  split_peeked-IsCut n left h = elim (dec_lt n (length left)) [
    | yes more ↦ IsCut-more n left h more
    | no fits ↦ IsCut-last n left (omega arith)
  ]

  All-no_cursor :
      (last_id : Option ℤ) (xs : List (Row V)) → All (λ x. after_cursor none last_id x ≡ true) xs
  unfolding after_cursor
  All-no_cursor last_id [] = tt
  All-no_cursor last_id (x ∷ xs) = (refl, All-no_cursor last_id xs)

  -- The rows of the first page, with the row that is read ahead.
  pub first_rows :
      (device_id : String) (tf : Timeframe) (n : ℕ) (rows : List (Row V))
      → HasKeys rows
      → select_page (params_of device_id tf none none (pos n)) rows
        ≡ take n (listing device_id tf rows)
  unfolding limited
  first_rows device_id tf n rows k =
      select_page-listing device_id tf none none (pos n) rows k
      ∙ ap (take n) (keep-All (after_cursor none none) _ (All-no_cursor none _))

  -- The rows of the page that follows a row of the listing.
  pub next_rows :
      (device_id : String) (tf : Timeframe) (n : ℕ) (rows front : List (Row V)) (r : Row V)
      (rest : List (Row V))
      → HasKeys rows
      → listing device_id tf rows ≡ front ++ r ∷ rest
      → select_page (params_of device_id tf (some r.timestamp) (some r.id) (pos n)) rows
        ≡ take n rest
  unfolding limited
  next_rows device_id tf n rows front r rest k e =
      select_page-listing device_id tf (some r.timestamp) (some r.id) (pos n) rows k
      ∙ ap (take n) (
          ap (keep (after_cursor (some r.timestamp) (some r.id))) e
          ∙ keep-after_cursor front r rest
              (subst IsSorted e (listing-IsSorted device_id tf rows k)))
