-- ===== src/Go/Strings.antt =====
-- `strings.Split` at one character, `TrimSuffix`, and `TrimLeft`, `TrimRight` and `Trim` of one character,
-- over code points. The character is given as a text.
use Prim.Native.String.{◌++◌}
use iot_metrics.Base.{
  ℕ, zero, suc, String, Bool, ◌≡◌, ◌≢◌, refl, inl, inr, false, Bool-cases, eq_iff, List, [], ◌∷◌,
  ◌&&◌, if◌then◌else◌,
}
use text.Mathlib.Text.{◌==◌}
use text.Mathlib.TextLemmas.{nil-append, cons-append}

-- The parts of a text, with `c` in front of the first.
abbrev onto_first : String → List String → List String
onto_first c [] = c ∷ []
onto_first c (part ∷ parts) = (c ++ part) ∷ parts

-- `strings.Split`
unfoldable pub split : String → String → List String
split sep String.[] = "" ∷ []
split sep (String.◌∷◌ c s) =
    let rest = split sep s in
    if String.◌∷◌ c "" == sep then "" ∷ rest else onto_first (String.◌∷◌ c "") rest

-- The first part that `strings.SplitN` gives of a text that it splits at one character
unfoldable pub before_first : String → String → String
before_first sep String.[] = ""
before_first sep (String.◌∷◌ c s) =
    let rest = before_first sep s in if String.◌∷◌ c "" == sep then "" else String.◌∷◌ c rest

-- `strings.TrimSuffix`
unfoldable pub trim_suffix : String → String → String
trim_suffix suffix String.[] = ""
trim_suffix suffix (String.◌∷◌ c s) =
    let rest = trim_suffix suffix s in if String.◌∷◌ c s == suffix then "" else String.◌∷◌ c rest

-- `strings.HasSuffix`, of one character
unfoldable pub ends_in : String → String → Bool
ends_in last String.[] = false
ends_in last (String.◌∷◌ c s) =
    let rest = ends_in last s in if s == "" then String.◌∷◌ c "" == last else rest

-- `strings.TrimLeft`
unfoldable pub trim_left_char : String → String → String
trim_left_char cut String.[] = ""
trim_left_char cut (String.◌∷◌ c s) =
    let rest = trim_left_char cut s in if String.◌∷◌ c "" == cut then rest else String.◌∷◌ c s

-- `strings.TrimRight`
unfoldable pub trim_right_char : String → String → String
trim_right_char cut String.[] = ""
trim_right_char cut (String.◌∷◌ c s) =
    let rest = trim_right_char cut s in
    if String.◌∷◌ c "" == cut && rest == "" then "" else String.◌∷◌ c rest

-- `strings.Trim`
unfoldable pub trim_char : String → String → String
unfolding trim_left_char trim_right_char
trim_char cut s = trim_right_char cut (trim_left_char cut s)

-- A slash `n` times.
unfoldable pub slashes : ℕ → String
slashes zero = ""
slashes (suc n) = String.◌∷◌ "/" (slashes n)

trim_right_char-slashes_nil : (n : ℕ) → trim_right_char "/" (slashes n) ≡ ""
unfolding trim_right_char slashes
trim_right_char-slashes_nil zero = refl
trim_right_char-slashes_nil (suc n) = rw (trim_right_char-slashes_nil n, trim_right_char) refl

pub trim_right_char-slashes :
    (s : String) (n : ℕ) → trim_right_char "/" (s ++ slashes n) ≡ trim_right_char "/" s
unfolding trim_right_char
trim_right_char-slashes String.[] n = rw (nil-append (slashes n)) (trim_right_char-slashes_nil n)
trim_right_char-slashes (String.◌∷◌ c s) n =
    rw (cons-append c s (slashes n), trim_right_char-slashes s n, trim_right_char) refl

pub eqb-of_ne : (s t : String) → s ≢ t → (s == t) ≡ false
eqb-of_ne s t h = elim (Bool-cases (s == t)) [ inl e ↦ absurd (h ((eq_iff s t).0 e)) | inr e ↦ e ]

split_test :
    split "/" "/iot.v1.DeviceService/RecordMetric"
    ≡ "" ∷ "iot.v1.DeviceService" ∷ "RecordMetric" ∷ []
unfolding split
split_test = refl

trim_char_test : trim_char "/" "/iot.v1.DeviceService/" ≡ "iot.v1.DeviceService"
unfolding trim_char
trim_char_test = refl
