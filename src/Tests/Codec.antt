-- ===== src/Tests/Codec.antt =====
-- A codec for small page tokens, which keeps what the model relies on in `encoding/json`.
use iot_metrics.Base.{
  Bool-cases, ℕ, ◌≡◌, refl, ◌≢◌, ◌&&◌, List, [], ◌∷◌, Option, none, some, ℤ, pos, negsuc, arith,
  ltb, ◌<◌, ◌==◌, if◌then◌else◌, All, inl, inr, subst,
}
use iot_metrics.Device.PageToken.{TokenJson, IsTokenJson}
use iot_metrics.Device.Types.{RepositoryPageToken}
use iot_metrics.Go.Base64.{IsByte}
use iot_metrics.System.Internal.{IsPlain, IsPlain-fault}
use iot_metrics.Go.Errors.{Error, other}
use iot_metrics.Go.Outcome.{err_injective, Outcome, ok, err, panic}
use iot_metrics.Go.Time.{Time, of_unix}
use iot_metrics.Sqlite.Tables.{Fault}

-- Two bytes for a token of a whole second and an id that are both below 256.
unfoldable pub marshal_small : ℕ → ℕ → ℕ → Outcome (List ℕ)
marshal_small n k m =
    if ltb n 256 && (k == 0) && ltb m 256 then ok (n ∷ m ∷ []) else err (other "json: out of range")

unfoldable pub marshal_secs : ℤ → ℕ → ℕ → Outcome (List ℕ)
marshal_secs (pos n) k m = marshal_small n k m
marshal_secs (negsuc n) k m = err (other "json: out of range")

unfoldable pub marshal_parts : Option Time → Option ℤ → Outcome (List ℕ)
marshal_parts (some t) (some (pos m)) = marshal_secs t.secs t.nanos m
marshal_parts _ _ = err (other "json: out of range")

unmarshal_small : List ℕ → Outcome RepositoryPageToken
unmarshal_small (n ∷ m ∷ []) =
    ok (record { last_time = some (of_unix (pos n)); last_id = some (pos m) })
unmarshal_small _ = ok (record { last_time = none; last_id = none })

unfoldable pub small_json : TokenJson
unfolding marshal_parts marshal_secs marshal_small unmarshal_small
small_json = record {
  marshal = λ t. marshal_parts t.last_time t.last_id;
  unmarshal = unmarshal_small;
}

-- What a token that is marshalled looks like.
record Small (t : RepositoryPageToken) (b : List ℕ) : Type 0 where
  n : ℕ
  m : ℕ
  time : t.last_time ≡ some (of_unix (pos n))
  id : t.last_id ≡ some (pos m)
  n_byte : n < 256
  m_byte : m < 256
  bytes : b ≡ n ∷ m ∷ []

Small-secs :
    (z : ℤ) (k m : ℕ) (b : List ℕ)
    → marshal_secs z k m ≡ ok b
    → Small (record { last_time = some (record { secs = z; nanos = k }); last_id = some (pos m) }) b
unfolding marshal_secs marshal_small
Small-secs (pos n) k m b h = record {
  n = n;
  m = m;
  time = ground arith;
  id = refl;
  n_byte = ground arith;
  m_byte = ground arith;
  bytes = ground arith;
}
Small-secs (negsuc n) k m b h = cc

Small-parts :
    (lt : Option Time) (li : Option ℤ) (b : List ℕ)
    → marshal_parts lt li ≡ ok b
    → Small (record { last_time = lt; last_id = li }) b
unfolding marshal_parts
Small-parts (some t) (some (pos m)) b h = Small-secs t.secs t.nanos m b h
Small-parts (some t) (some (negsuc m)) b h = cc
Small-parts (some t) none b h = cc
Small-parts none li b h = cc

secs-ne-panic : (z : ℤ) (k m : ℕ) → marshal_secs z k m ≢ panic
unfolding marshal_secs marshal_small
secs-ne-panic (pos n) k m = ground arith
secs-ne-panic (negsuc n) k m = ground arith

parts-ne-panic : (lt : Option Time) (li : Option ℤ) → marshal_parts lt li ≢ panic
unfolding marshal_parts
parts-ne-panic (some t) (some (pos m)) = secs-ne-panic t.secs t.nanos m
parts-ne-panic (some t) (some (negsuc m)) = ground arith
parts-ne-panic (some t) none = ground arith
parts-ne-panic none li = ground arith

unmarshal-ne-panic : (b : List ℕ) → unmarshal_small b ≢ panic
unfolding unmarshal_small
unmarshal-ne-panic [] = ground arith
unmarshal-ne-panic (n ∷ []) = ground arith
unmarshal-ne-panic (n ∷ m ∷ []) = ground arith
unmarshal-ne-panic (n ∷ m ∷ k ∷ rest) = ground arith

Small-read : (t : RepositoryPageToken) (b : List ℕ) → Small t b → unmarshal_small b ≡ ok t
unfolding unmarshal_small
Small-read t b s = rw s.bytes (ground arith)

Small-IsByte : (t : RepositoryPageToken) (b : List ℕ) → Small t b → All IsByte b
Small-IsByte t b s = rw s.bytes (s.n_byte, (s.m_byte, tt))

Small-ne : (t : RepositoryPageToken) (b : List ℕ) → Small t b → b ≢ []
Small-ne t b s = rw s.bytes (λ h. cc)

pub small_json-IsTokenJson : IsTokenJson small_json
unfolding small_json
small_json-IsTokenJson = record {
  marshal_returns = λ t. parts-ne-panic t.last_time t.last_id;
  unmarshal_returns = unmarshal-ne-panic;
  marshal_bytes = λ t b h. Small-IsByte t b (Small-parts t.last_time t.last_id b h);
  marshal_ne_nil = λ t b h. Small-ne t b (Small-parts t.last_time t.last_id b h);
  unmarshal-marshal = λ t b h. Small-read t b (Small-parts t.last_time t.last_id b h);
}

IsPlain-json : IsPlain (other "json: out of range")
IsPlain-json = IsPlain-fault (Fault.failure "json: out of range")

marshal_small-IsPlain : (n k m : ℕ) (e : Error) → marshal_small n k m ≡ err e → IsPlain e
unfolding marshal_small
marshal_small-IsPlain n k m e h = elim (Bool-cases (ltb n 256 && (k == 0) && ltb m 256)) [
  | inl small ↦ cc (rw small at h)
  | inr large ↦ subst IsPlain (err_injective (rw large at h)) IsPlain-json
]

marshal_parts-IsPlain :
    (lt : Option Time) (li : Option ℤ) (e : Error) → marshal_parts lt li ≡ err e → IsPlain e
unfolding marshal_parts marshal_secs
marshal_parts-IsPlain (some t) (some (pos m)) e h = go t.secs h
  where
    go : (z : ℤ) → marshal_secs z t.nanos m ≡ err e → IsPlain e
    go (pos n) h = marshal_small-IsPlain n t.nanos m e h
    go (negsuc n) h = subst IsPlain (err_injective h) IsPlain-json
marshal_parts-IsPlain (some t) (some (negsuc m)) e h = subst IsPlain (err_injective h) IsPlain-json
marshal_parts-IsPlain (some t) none e h = subst IsPlain (err_injective h) IsPlain-json
marshal_parts-IsPlain none li e h = subst IsPlain (err_injective h) IsPlain-json

-- The codec fails with plain errors only.
pub small_json-IsPlain :
    (t : RepositoryPageToken) (e : Error) → small_json.marshal t ≡ err e → IsPlain e
unfolding small_json
small_json-IsPlain t e h = marshal_parts-IsPlain t.last_time t.last_id e h
