-- ===== src/Go/Base64.antt =====
-- `base64.RawURLEncoding`: `EncodeToString` and `DecodeString`, over lists of byte values.
use Prim.Native.Char.{Char, code}
use iot_metrics.Base.{
  ℕ, zero, suc, ◌+◌, ◌-◌, ◌*◌, ◌/◌, ◌%◌, ◌<◌, ◌≡◌, ◌≢◌, refl, String, Bool, true, false, not, ◌&&◌,
  ◌||◌, ◌⊎◌, inl, inr, subst, sym, and_left, and_right, List, [], ◌∷◌, Option, none, some, arith,
  leb, ◌==◌, if◌then◌else◌, All,
}

-- The alphabet of RFC 4648, section 5.
abbrev alphabet : String
alphabet = "ABCDEFGHIJKLMNOPQRSTUVWXYZabcdefghijklmnopqrstuvwxyz0123456789-_"

nth : String → ℕ → Char
nth String.[] n = Prim.Native.Char.nul
nth (String.◌∷◌ c s) zero = c
nth (String.◌∷◌ c s) (suc n) = nth s n

-- The character for a six-bit value, and back; `none` is a character outside the alphabet.
char64 : ℕ → Char
unfolding nth
char64 v = nth alphabet v

value64 : ℕ → Option ℕ
value64 c =
    if leb b'A' c && leb c b'Z'
    then some (c - b'A')
    else if leb b'a' c && leb c b'z'
    then some (c - b'a' + 26)
    else if leb b'0' c && leb c b'9'
    then some (c - b'0' + 52)
    else if c == b'-'
    then some 62
    else if c == b'_'
    then some 63
    else none

-- Bytes cut into six-bit values; the bits that are missing at the end are zero.
sextets : List ℕ → List ℕ
sextets [] = []
sextets (a ∷ []) = (a / 4) ∷ (a % 4 * 16) ∷ []
sextets (a ∷ b ∷ []) = (a / 4) ∷ (a % 4 * 16 + b / 16) ∷ (b % 16 * 4) ∷ []
sextets (a ∷ b ∷ c ∷ rest) =
    (a / 4) ∷ (a % 4 * 16 + b / 16) ∷ (b % 16 * 4 + c / 64) ∷ (c % 64) ∷ sextets rest

to_text : List ℕ → String
to_text [] = ""
to_text (v ∷ vs) = String.◌∷◌ (char64 v) (to_text vs)

unfoldable pub encode_to_string : List ℕ → String
unfolding sextets to_text char64
encode_to_string bytes = to_text (sextets bytes)

abbrev prepend : ℕ → Option (List ℕ) → Option (List ℕ)
prepend v none = none
prepend v (some vs) = some (v ∷ vs)

is_break : ℕ → Bool
is_break c = c == b'\n' || c == b'\r'

-- The six-bit values of a text. `DecodeString` skips line breaks.
values : String → Option (List ℕ)
values String.[] = some []
values (String.◌∷◌ c s) =
    let rest = values s in
    if is_break (code c)
    then rest
    else elim (value64 (code c)) [ none ↦ none | some v ↦ prepend v rest ]

-- Six-bit values joined to bytes. One value alone at the end is an error; bits that are left over
-- are dropped.
octets : List ℕ → Option (List ℕ)
octets [] = some []
octets (w ∷ []) = none
octets (w ∷ x ∷ []) = some ((w * 4 + x / 16) ∷ [])
octets (w ∷ x ∷ y ∷ []) = some ((w * 4 + x / 16) ∷ (x % 16 * 16 + y / 4) ∷ [])
octets (w ∷ x ∷ y ∷ z ∷ rest) =
    prepend (w * 4 + x / 16)
      (prepend (x % 16 * 16 + y / 4) (prepend (y % 4 * 64 + z) (octets rest)))

abbrev octets_of : Option (List ℕ) → Option (List ℕ)
octets_of none = none
octets_of (some vs) = octets vs

unfoldable pub decode_string : String → Option (List ℕ)
unfolding values value64 octets is_break
decode_string s = octets_of (values s)

abbrev pub IsByte : ℕ → Type 0
IsByte b = b < 256

abbrev Is64 : ℕ → Type 0
Is64 v = v < 64

is_some_of : Option ℕ → ℕ → Bool
is_some_of none v = false
is_some_of (some w) v = w == v

-- A value below 64 is read back from its character, which is no line break.
reads_back : ℕ → Bool
unfolding char64 value64 is_break is_some_of
reads_back v = not (is_break (code (char64 v))) && is_some_of (value64 (code (char64 v))) v

decide_last : (v last : ℕ) → v < suc last → (v ≡ last) ⊎ (v < last)
decide_last v last h = ground arith

-- A test that each number under a bound passes.
passes : (ℕ → Bool) → ℕ → Bool
passes test zero = true
passes test (suc last) = let before = passes test last in before && test last

passes_under :
    (test : ℕ → Bool) (bound : ℕ) → passes test bound ≡ true → (v : ℕ) → v < bound → test v ≡ true
unfolding passes
passes_under test zero all v small = elim small [ ]
passes_under test (suc last) all v small = elim (decide_last v last small) [
  | inl e ↦ subst (λ n. test n ≡ true) (sym e) (and_right (passes test last) (test last) all)
  | inr below ↦ passes_under test last (and_left (passes test last) (test last) all) v below
]

all_read_back : passes reads_back 64 ≡ true
unfolding passes reads_back
all_read_back = refl

is_some_of→eq : (o : Option ℕ) (v : ℕ) → is_some_of o v ≡ true → o ≡ some v
unfolding is_some_of
is_some_of→eq none v h = cc
is_some_of→eq (some w) v h = ground arith

and_cases : (a b : Bool) → (not a && b) ≡ true → (a ≡ false) × (b ≡ true)
and_cases true b h = cc
and_cases false b h = (refl, h)

char64_lem :
    (v : ℕ) → v < 64 → (is_break (code (char64 v)) ≡ false) × (value64 (code (char64 v)) ≡ some v)
char64_lem v h = let (plain, found) = and_cases _ _ reads in (plain, is_some_of→eq _ v found)
  where
    reads : (not (is_break (code (char64 v))) && is_some_of (value64 (code (char64 v))) v) ≡ true
    reads = unfold reads_back in passes_under reads_back 64 all_read_back v h

values-to_text : (vs : List ℕ) → All Is64 vs → values (to_text vs) ≡ some vs
unfolding values to_text
values-to_text [] h = refl
values-to_text (v ∷ vs) (h, hs) =
    let (plain, found) = char64_lem v h in rw (plain, found, values-to_text vs hs)

sextets-Is64 : (bytes : List ℕ) → All IsByte bytes → All Is64 (sextets bytes)
unfolding sextets
sextets-Is64 [] h = tt
sextets-Is64 (a ∷ []) h = omega arith
sextets-Is64 (a ∷ b ∷ []) h = omega arith
sextets-Is64 (a ∷ b ∷ c ∷ rest) h =
    (omega arith, (omega arith, (omega arith, (omega arith, sextets-Is64 rest h.1.1.1))))

octets-sextets : (bytes : List ℕ) → All IsByte bytes → octets (sextets bytes) ≡ some bytes
unfolding octets sextets
octets-sextets [] h = refl
octets-sextets (a ∷ []) h = ground arith
octets-sextets (a ∷ b ∷ []) h = ground arith
octets-sextets (a ∷ b ∷ c ∷ rest) h = ground (arith, octets-sextets rest h.1.1.1)

-- Every list of bytes is read back from its encoding.
pub decode-encode :
    (bytes : List ℕ) → All IsByte bytes → decode_string (encode_to_string bytes) ≡ some bytes
unfolding decode_string encode_to_string
decode-encode bytes h =
    rw (values-to_text (sextets bytes) (sextets-Is64 bytes h)) (octets-sextets bytes h)

-- Only no bytes are encoded as the empty text.
pub encode_to_string-ne-nil : (bytes : List ℕ) → bytes ≢ [] → encode_to_string bytes ≢ ""
unfolding encode_to_string
encode_to_string-ne-nil [] h e = h refl
encode_to_string-ne-nil (a ∷ []) h e = cc
encode_to_string-ne-nil (a ∷ b ∷ []) h e = cc
encode_to_string-ne-nil (a ∷ b ∷ c ∷ rest) h e = cc
