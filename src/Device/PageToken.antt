-- ===== src/Device/PageToken.antt =====
-- device/pagination.go: page tokens as base64 text over JSON. `encoding/json` at the token's type is
-- a parameter of the model.
use iot_metrics.Base.{
  ℕ, ◌≡◌, ◌≢◌, ◌∙◌, refl, inl, inr, Option-cases, String, List, [], none, some, All,
}
use iot_metrics.Go.Base64.{
  encode_to_string, decode_string, decode-encode, encode_to_string-ne-nil, IsByte,
}
use iot_metrics.Go.Errors.{other}
use iot_metrics.Go.Outcome.{Outcome, ok, err, panic}
use iot_metrics.Device.Types.{RepositoryPageToken}

-- `json.Marshal` and `json.Unmarshal` at `RepositoryPageToken`.
pub record TokenJson : Type 0 where
  pub marshal : RepositoryPageToken → Outcome (List ℕ)
  pub unmarshal : List ℕ → Outcome RepositoryPageToken

-- What the package documents: both return, a struct's text is made of bytes and not empty, and what was
-- marshalled is read back.
pub record IsTokenJson (j : TokenJson) : Type 0 where
  pub marshal_bytes : (t : RepositoryPageToken) (b : List ℕ) → j.marshal t ≡ ok b → All IsByte b
  pub marshal_returns : (t : RepositoryPageToken) → j.marshal t ≢ panic
  pub unmarshal_returns : (b : List ℕ) → j.unmarshal b ≢ panic
  pub marshal_ne_nil : (t : RepositoryPageToken) (b : List ℕ) → j.marshal t ≡ ok b → b ≢ []
  pub unmarshal-marshal :
      (t : RepositoryPageToken) (b : List ℕ) → j.marshal t ≡ ok b → j.unmarshal b ≡ ok t

abbrev pub encoded : Outcome (List ℕ) → Outcome String
encoded (ok b) = ok (encode_to_string b)
encoded (err e) = err e
encoded panic = panic

module _ (j : TokenJson) where
  -- `encodePageToken`
  unfoldable pub encode_page_token : RepositoryPageToken → Outcome String
  encode_page_token tkn = encoded (j.marshal tkn)

  -- `decodePageToken`
  unfoldable pub decode_page_token : String → Outcome RepositoryPageToken
  decode_page_token tkn = elim (decode_string tkn) [
    | none ↦ err (other "illegal base64 data")
    | some dec ↦ j.unmarshal dec
  ]

  encoded_cases :
      (o : Outcome (List ℕ)) (text : String)
      → encoded o ≡ ok text
      → (b : List ℕ) × (o ≡ ok b) × (encode_to_string b ≡ text)
  encoded_cases (ok b) text h = (b, cc, cc)
  encoded_cases (err e) text h = cc
  encoded_cases panic text h = cc

  -- A token that was encoded is decoded to itself, by way of base64 and JSON.
  pub decode-encode_page_token :
      (lawful : IsTokenJson j) (t : RepositoryPageToken) (text : String)
      → encode_page_token t ≡ ok text
      → decode_page_token text ≡ ok t
  unfolding encode_page_token decode_page_token
  decode-encode_page_token lawful t text h =
      let (b, marshalled, same) = encoded_cases (j.marshal t) text h in
      rw (← same, decode-encode b (lawful.marshal_bytes t b marshalled), decode_page_token)
        (lawful.unmarshal-marshal t b marshalled)

  -- No token is encoded as the empty text, which stands for no token.
  pub encode_page_token-ne-nil :
      (lawful : IsTokenJson j) (t : RepositoryPageToken) (text : String)
      → encode_page_token t ≡ ok text
      → text ≢ ""
  unfolding encode_page_token
  encode_page_token-ne-nil lawful t text h e =
      let (b, marshalled, same) = encoded_cases (j.marshal t) text h in
      encode_to_string-ne-nil b (lawful.marshal_ne_nil t b marshalled) (same ∙ e)

  encoded-ne-panic : (o : Outcome (List ℕ)) → o ≢ panic → encoded o ≢ panic
  encoded-ne-panic (ok b) h e = cc
  encoded-ne-panic (err x) h e = cc
  encoded-ne-panic panic h e = h refl

  pub encode_page_token-ne-panic :
      (lawful : IsTokenJson j) (t : RepositoryPageToken) → encode_page_token t ≢ panic
  unfolding encode_page_token
  encode_page_token-ne-panic lawful t = encoded-ne-panic (j.marshal t) (lawful.marshal_returns t)

  pub decode_page_token-ne-panic :
      (lawful : IsTokenJson j) (text : String) → decode_page_token text ≢ panic
  unfolding decode_page_token
  decode_page_token-ne-panic lawful text e = elim (Option-cases (decode_string text)) [
    | inl h ↦ cc (rw (h, decode_page_token) at e)
    | inr (b, h) ↦ lawful.unmarshal_returns b (rw (h, decode_page_token) at e)
  ]
