-- ===== src/Go/Dict.antt =====
-- Go's `map[string]V` as a list of entries with distinct keys.
use iot_metrics.Base.{
  String, ◌≡◌, refl, List, [], ◌∷◌, Option, none, some, arith, if◌then◌else◌, eq_iff,
}
use text.Mathlib.Text.{◌==◌}

module _ {ℓ} {V : Type ℓ} where
  -- `entries[key]`, with `none` for a missing key.
  unfoldable pub lookup : String → List (String × V) → Option V
  lookup key [] = none
  lookup key ((name, value) ∷ entries) = if name == key then some value else lookup key entries

  -- `entries[key] = value`
  unfoldable pub insert : String → V → List (String × V) → List (String × V)
  insert key value [] = (key, value) ∷ []
  insert key value ((name, old) ∷ entries) =
      let rest = insert key value entries in
      if name == key then (key, value) ∷ entries else (name, old) ∷ rest

  -- What is read after a write: the value at its key, and what was there at any other.
  pub lookup-insert :
      (key other : String) (value : V) (entries : List (String × V))
      → lookup other (insert key value entries)
        ≡ (if key == other then some value else lookup other entries)
  unfolding lookup insert
  lookup-insert key other value [] = refl
  lookup-insert key other value ((name, old) ∷ entries) =
      let rest = lookup-insert key other value entries in
      ground (arith, rest, eq_iff name key, eq_iff name other, eq_iff key other)

  pub insert-ne-nil :
      (key : String) (value : V) (entries : List (String × V)) → insert key value entries ≡ [] → ⊥
  unfolding insert
  insert-ne-nil key value [] h = cc
  insert-ne-nil key value ((name, old) ∷ entries) h = ground arith
