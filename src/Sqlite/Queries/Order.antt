-- ===== src/Sqlite/Queries/Order.antt =====
-- The order of a page: rows by timestamp and then by id, both falling.
use iot_metrics.Base.{
  suc, ◌≡◌, refl, ◌≢◌, inl, inr, Bool, true, false, List, [], ◌∷◌, ap, ◌∙◌, some, arith,
  if◌then◌else◌, keep, All, All-map, All-keep, Bool-cases, In, ◌↔◌, length,
}
use iot_metrics.Sqlite.Tables.{Row}
use iot_metrics.Sqlite.Queries.{before, place, order_by, after_cursor}

module _ {V : Type 0} where
  before_trans : (a b c : Row V) → before a b ≡ true → before b c ≡ true → before a c ≡ true
  unfolding before
  before_trans a b c h k = ground arith

  -- The rows differ in their ids.
  before_total : (a b : Row V) → a.id ≢ b.id → before a b ≡ false → before b a ≡ true
  unfolding before
  before_total a b h k = ground arith

  pub before_asymm : (a b : Row V) → before a b ≡ true → before b a ≡ false
  unfolding before
  before_asymm a b h = ground arith

  pub before_irrefl : (a : Row V) → before a a ≡ false
  unfolding before
  before_irrefl a = ground arith

  -- A row lies past the cursor of another if it comes after it.
  pub after_cursor-eq : (a b : Row V) → after_cursor (some a.timestamp) (some a.id) b ≡ before a b
  unfolding after_cursor before
  after_cursor-eq a b = ground arith

  -- Every row comes before all that follow it.
  abbrev pub IsSorted : List (Row V) → Type 0
  IsSorted [] = Unit
  IsSorted (x ∷ xs) = All (λ y. before x y ≡ true) xs × IsSorted xs

  -- No two rows have one id.
  abbrev pub HasKeys : List (Row V) → Type 0
  HasKeys [] = Unit
  HasKeys (x ∷ xs) = All (λ y. x.id ≢ y.id) xs × HasKeys xs

  All-place :
      (P : Row V → Type 0) (x : Row V) (xs : List (Row V)) → P x → All P xs → All P (place x xs)
  unfolding place
  All-place P x [] p h = (p, tt)
  All-place P x (y ∷ ys) p h = elim (Bool-cases (before x y)) [
    | inl e ↦ rw e (p, h)
    | inr e ↦ rw e (h.0, All-place P x ys p h.1)
  ]

  pub All-order_by : (P : Row V → Type 0) (xs : List (Row V)) → All P xs → All P (order_by xs)
  unfolding order_by
  All-order_by P [] h = tt
  All-order_by P (x ∷ xs) h = All-place P x (order_by xs) h.0 (All-order_by P xs h.1)

  place-IsSorted :
      (x : Row V) (xs : List (Row V))
      → All (λ y. x.id ≢ y.id) xs
      → IsSorted xs
      → IsSorted (place x xs)
  unfolding place
  place-IsSorted x [] d s = (tt, tt)
  place-IsSorted x (y ∷ ys) d s = elim (Bool-cases (before x y)) [
    | inl e ↦ rw e ((e, All-map ys (λ z h. before_trans x y z e h) s.0), s)
    | inr e ↦ rw e (
      All-place (λ z. before y z ≡ true) x ys (before_total x y d.0 e) s.0,
      place-IsSorted x ys d.1 s.1,
    )
  ]

  -- Ordering rows with distinct ids sorts them.
  pub order_by-IsSorted : (xs : List (Row V)) → HasKeys xs → IsSorted (order_by xs)
  unfolding order_by
  order_by-IsSorted [] k = tt
  order_by-IsSorted (x ∷ xs) k =
      place-IsSorted x (order_by xs) (All-order_by (λ y. x.id ≢ y.id) xs k.0)
        (order_by-IsSorted xs k.1)

  length-place : (x : Row V) (xs : List (Row V)) → length (place x xs) ≡ suc (length xs)
  unfolding place
  length-place x [] = refl
  length-place x (y ∷ ys) = ground (arith, length-place x ys)

  pub length-order_by : (xs : List (Row V)) → length (order_by xs) ≡ length xs
  unfolding order_by
  length-order_by [] = refl
  length-order_by (x ∷ xs) = length-place x (order_by xs) ∙ ap suc (length-order_by xs)

  In-place : (a x : Row V) (xs : List (Row V)) → In a (place x xs) ↔ In a (x ∷ xs)
  unfolding place
  In-place a x [] = (λ h. h, λ h. h)
  In-place a x (y ∷ ys) = elim (Bool-cases (before x y)) [
    | inl e ↦ rw e (λ h. h, λ h. h)
    | inr e ↦ rw e (
      elim [
        | inl first ↦ inr (inl first)
        | inr later ↦ elim ((In-place a x ys).0 later) [
          | inl same ↦ inl same
          | inr rest ↦ inr (inr rest)
        ]
      ],
      elim [
        | inl same ↦ inr ((In-place a x ys).1 (inl same))
        | inr later ↦ elim later [
          | inl first ↦ inl first
          | inr rest ↦ inr ((In-place a x ys).1 (inr rest))
        ]
      ],
    )
  ]

  -- Ordering loses and invents no row.
  pub In-order_by : (a : Row V) (xs : List (Row V)) → In a (order_by xs) ↔ In a xs
  unfolding order_by
  In-order_by a [] = (λ h. h, λ h. h)
  In-order_by a (x ∷ xs) = (
    λ h. elim ((In-place a x (order_by xs)).0 h) [
      | inl same ↦ inl same
      | inr later ↦ inr ((In-order_by a xs).0 later)
    ],
    λ h.
        (In-place a x (order_by xs)).1
          (elim h [ inl same ↦ inl same | inr later ↦ inr ((In-order_by a xs).1 later) ]),
  )

  -- A row before all others is placed first.
  place_first :
      (x : Row V) (xs : List (Row V)) → All (λ y. before x y ≡ true) xs → place x xs ≡ x ∷ xs
  unfolding place
  place_first x [] h = refl
  place_first x (y ∷ ys) h = rw h.0

  before-All :
      (x y : Row V) (ys : List (Row V))
      → before x y ≡ true
      → IsSorted (y ∷ ys)
      → All (λ z. before x z ≡ true) (y ∷ ys)
  before-All x y ys e s = (e, All-map ys (λ z h. before_trans x y z e h) s.0)

  keep-place_first :
      (p : Row V → Bool) (x : Row V) (l : List (Row V))
      → All (λ z. before x z ≡ true) l
      → keep p (x ∷ l) ≡ (if p x then place x (keep p l) else keep p l)
  keep-place_first p x l h = rw (place_first x (keep p l) (All-keep (λ z. before x z ≡ true) p l h))

  keep-place :
      (p : Row V → Bool) (x : Row V) (xs : List (Row V))
      → IsSorted xs
      → keep p (place x xs) ≡ (if p x then place x (keep p xs) else keep p xs)
  unfolding place
  keep-place p x [] s = refl
  keep-place p x (y ∷ ys) s = elim (Bool-cases (before x y)) [
    | inl e ↦ rw e (keep-place_first p x (y ∷ ys) (before-All x y ys e s))
    | inr e ↦ ground (arith, e, keep-place p x ys s.1)
  ]

  -- The rows that pass a test are ordered alike before and after the selection.
  pub keep-order_by :
      (p : Row V → Bool) (xs : List (Row V))
      → HasKeys xs
      → keep p (order_by xs) ≡ order_by (keep p xs)
  unfolding order_by
  keep-order_by p [] k = refl
  keep-order_by p (x ∷ xs) k =
      rw (keep-place p x (order_by xs) (order_by-IsSorted xs k.1), keep-order_by p xs k.1)
        (ground arith)
