-- ===== src/Http/Validator.antt =====
-- http/req_validator.go. The three Go structs share one `*RequestValidator`; here each carries its
-- value, and `message` returns the validator that the Go code has changed in place.
use iot_metrics.Base.{
  String, ◌≡◌, refl, sym, eq_iff, ◌↔◌, Bool, true, false, List, [], ◌∷◌, ◌++◌, Option, none, some,
  arith, if◌then◌else◌,
}
use iot_metrics.Go.Dict.{lookup, insert, lookup-insert, insert-ne-nil}
use iot_metrics.Go.Errors.{Error, bad_request}
use mathlib.Core.List.{append-nil}
use text.Mathlib.Text.{◌==◌}

pub record RequestValidator : Type 0 where
  pub field_violations : List (String × List String)

-- `NewRequestValidator`
abbrev pub new_request_validator : RequestValidator
new_request_validator = record { field_violations = [] }

pub record FieldValidator : Type 0 where
  pub validator : RequestValidator
  pub field : String

pub record FieldCondition : Type 0 where
  pub validator : RequestValidator
  pub field : String
  pub condition : Bool

-- `Field`
abbrev pub field_of : RequestValidator → String → FieldValidator
field_of v name = record { validator = v; field = name }

-- `When`
abbrev pub when : FieldValidator → Bool → FieldCondition
when f b = record { validator = f.validator; field = f.field; condition = b }

-- The value of a missing key is the nil slice.
abbrev pub or_nil : Option (List String) → List String
or_nil none = []
or_nil (some messages) = messages

-- `Message`
unfoldable pub message : FieldCondition → String → RequestValidator
message fc msg =
    if fc.condition
    then record {
      field_violations =
          insert fc.field (or_nil (lookup fc.field fc.validator.field_violations) ++ msg ∷ [])
            fc.validator.field_violations;
    }
    else fc.validator

-- `Error`; `none` is the nil error.
unfoldable pub error : RequestValidator → Option Error
error v = elim v.field_violations [ [] ↦ none | x ∷ xs ↦ some (bad_request (x ∷ xs)) ]

-- `v.Field(name).When(condition).Message(msg)`
abbrev pub check : RequestValidator → String → Bool → String → RequestValidator
check v name condition msg = message (when (field_of v name) condition) msg

-- The messages recorded for a field.
abbrev pub messages : RequestValidator → String → List String
messages v name = or_nil (lookup name v.field_violations)

-- A check appends its message to its own field's, if the condition holds, and leaves the messages
-- of all other fields alone.
pub messages-check :
    (v : RequestValidator) (name other : String) (condition : Bool) (msg : String)
    → messages (check v name condition msg) other
      ≡ messages v other ++ (if condition then if name == other then msg ∷ [] else [] else [])
unfolding message
messages-check v name other true msg =
    rw (lookup-insert name other (messages v name ++ msg ∷ []) v.field_violations)
      (ground (arith, eq_iff name other, append-nil (messages v other)))
messages-check v name other false msg = sym (append-nil (messages v other))

-- No violation so far.
abbrev pub IsClean : RequestValidator → Type 0
IsClean v = v.field_violations ≡ []

pub check-IsClean_iff :
    (v : RequestValidator) (name : String) (condition : Bool) (msg : String)
    → IsClean (check v name condition msg) ↔ (IsClean v × (condition ≡ false))
unfolding message
check-IsClean_iff v name true msg =
    (λ e. absurd (insert-ne-nil name _ v.field_violations e), λ h. cc h.1)
check-IsClean_iff v name false msg = (λ e. (e, refl), λ h. h.0)

pub error-eq-none_iff : (v : RequestValidator) → (error v ≡ none) ↔ IsClean v
unfolding error
error-eq-none_iff v = ground arith

-- The error of a validator is a bad request with a violation.
pub error-bad_request :
    (v : RequestValidator) (e : Error)
    → error v ≡ some e
    → (x : String × List String) × (xs : List (String × List String)) × (e ≡ bad_request (x ∷ xs))
unfolding error
error-bad_request v e h = go v.field_violations h
  where
    go :
        (l : List (String × List String))
        → ◌≡◌ {A = Option Error}
            (elim l [ [] ↦ none | x ∷ xs ↦ some (bad_request (x ∷ xs)) ])
            (some e)
        → (x : String × List String) × (xs : List (String × List String)) × (e
            ≡ bad_request (x ∷ xs))
    go [] h = cc
    go (x ∷ xs) h = (x, xs, cc)
