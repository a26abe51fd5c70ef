-- ===== src/Go/Text.antt =====
-- `strings.TrimSpace`, over code points.
use Prim.Native.Char.{Char, code}
use iot_metrics.Base.{
  ℕ, String, ◌≡◌, ◌↔◌, refl, false, Bool-cases, inl, inr, Bool, true, ◌&&◌, ◌||◌, leb, ◌==◌ as eqb,
  if◌then◌else◌,
}
use text.Mathlib.Text.{◌==◌}

-- `unicode.IsSpace`
abbrev pub is_space : ℕ → Bool
is_space c =
    (leb 9 c && leb c 13)
    || eqb c 32
    || eqb c 0x85
    || eqb c 0xA0
    || eqb c 0x1680
    || (leb 0x2000 c && leb c 0x200A)
    || eqb c 0x2028
    || eqb c 0x2029
    || eqb c 0x202F
    || eqb c 0x205F
    || eqb c 0x3000

pub trim_left : String → String
trim_left String.[] = ""
trim_left (String.◌∷◌ c s) = if is_space (code c) then trim_left s else String.◌∷◌ c s

pub trim_right : String → String
trim_right String.[] = ""
trim_right (String.◌∷◌ c s) =
    let rest = trim_right s in if is_space (code c) && rest == "" then "" else String.◌∷◌ c rest

unfoldable pub trim_space : String → String
unfolding trim_left trim_right
trim_space s = trim_right (trim_left s)

-- Every character is white space.
abbrev pub AllSpace : String → Type 0
AllSpace String.[] = Unit
AllSpace (String.◌∷◌ c s) = (is_space (code c) ≡ true) × AllSpace s

starts_solid :
    (c : Char) (s : String)
    → is_space (code c) ≡ false
    → trim_right (String.◌∷◌ c s) ≡ String.◌∷◌ c (trim_right s)
unfolding trim_right
starts_solid c s e = rw e

-- Trimming leaves nothing exactly of a text that is white space throughout.
pub trim_space-eq-nil_iff : (s : String) → (trim_space s ≡ "") ↔ AllSpace s
unfolding trim_space trim_left
trim_space-eq-nil_iff String.[] = (λ h. tt, λ h. refl)
trim_space-eq-nil_iff (String.◌∷◌ c s) = elim (Bool-cases (is_space (code c))) [
  | inl e ↦ rw e (λ h. (refl, (trim_space-eq-nil_iff s).0 h), λ h. (trim_space-eq-nil_iff s).1 h.1)
  | inr e ↦ rw (e, starts_solid c s e) (λ h. cc, λ h. cc)
]
