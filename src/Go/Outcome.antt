-- ===== src/Go/Outcome.antt =====
-- How a call ends: it returns a value, returns an error, or panics. A stateful call also gives the
-- state that it leaves, on every ending.
use iot_metrics.Base.{String, ◌≡◌}
use iot_metrics.Go.Errors.{Error, wrapped}

pub data Outcome {ℓ} (A : Type ℓ) : Type ℓ where
  ok : A → Outcome A
  err : Error → Outcome A
  panic : Outcome A

-- A call that reads and changes a state.
abbrev pub Call : Type 0 → Type 0 → Type 0
Call S A = S → Outcome A × S

module _ {S A : Type 0} where
  abbrev pub return : A → Call S A
  return a s = (ok a, s)

  abbrev pub fail : Error → Call S A
  fail e s = (err e, s)

  abbrev pub next : {B : Type 0} → Outcome A × S → (A → Call S B) → Outcome B × S
  next (ok a, s) k = k a s
  next (err e, s) k = (err e, s)
  next (panic, s) k = (panic, s)

  -- `if err != nil { return fmt.Errorf(text + ": %w", err) }`
  abbrev pub wrap_error : String → Outcome A × S → Outcome A × S
  wrap_error text (ok a, s) = (ok a, s)
  wrap_error text (err e, s) = (err (wrapped text e), s)
  wrap_error text (panic, s) = (panic, s)

  abbrev pub wrapping : String → Call S A → Call S A
  wrapping text m s = wrap_error text (m s)

infixl 5 ◌>>=◌ ◌>>◌
abbrev pub ◌>>=◌ : {S A B : Type 0} → Call S A → (A → Call S B) → Call S B
◌>>=◌ m k s = next (m s) k

abbrev pub ◌>>◌ : {S B : Type 0} → Call S (Unit {0}) → Call S B → Call S B
m >> k = m >>= λ _. k

pub err_injective {ℓ} : {A : Type ℓ} {e e' : Error} → ◌≡◌ {A = Outcome A} (err e) (err e') → e ≡ e'
err_injective h = cc
