-- ===== src/Platform/Tokens.antt =====
-- The tokens of orders, internal/platform/security/ordertoken/token.go, and the cursors of
-- internal/platform/service/service.go.
use avito_kitchen.Base.{
  ℕ, ◌≡◌, refl, sym, subst, ◌==◌, ◌++◌, ltb, Option, none, some, Bool-cases, inl, inr, ◌||◌, [],
  ◌∷◌, Text, length, if◌then◌else◌, arith, All, true,
}
use avito_kitchen.Shared.Transaction.{ok, err, Result}
use avito_kitchen.Shared.Base64.{encode, decode, IsByte, decode-encode}
use avito_kitchen.Shared.Uuid.{is_valid, dash, is_hex}
use avito_kitchen.Shared.Uuid.Shape.{is_valid-shape}
use avito_kitchen.Shared.Uuid.New.{hex}

-- `byteLength`.
abbrev pub byte_length : ℕ
byte_length = 32

-- `ErrInvalid`.
pub data TokenError : Type 0 where
  invalid_token : TokenError

-- The token that a client gets and the hash that the platform keeps.
pub record Token : Type 0 where
  pub raw : Text
  pub hash : Text

-- `sha256` stands for `sha256.Sum256`.
module _ (sha256 : Text → Text) where
  -- `Hash` after the decoder.
  unfoldable pub hash_decoded : Option Text → Result TokenError Text
  unfolding hex
  hash_decoded none = err invalid_token
  hash_decoded (some bytes) =
      if length bytes == byte_length then ok (hex (sha256 bytes)) else err invalid_token

  -- `Hash`.
  unfoldable pub hash_token : Text → Result TokenError Text
  unfolding decode hash_decoded
  hash_token raw = hash_decoded (decode raw)

  hash_token-encode :
      (bytes : Text)
      → length bytes ≡ byte_length
      → All IsByte bytes
      → hash_token (encode bytes) ≡ ok (hex (sha256 bytes))
  unfolding hash_token hash_decoded
  hash_token-encode bytes size are_bytes =
      subst (λ o. hash_decoded o ≡ ok (hex (sha256 bytes))) (sym (decode-encode bytes are_bytes))
        (rw size refl)

-- `hmac` stands for an `hmac.New(sha256.New, …)` that has read a message.
module _ (sha256 : Text → Text) (hmac : Text → Text → Text) where
  -- `Derive`.
  unfoldable pub derive : Text → Text → Text → Result TokenError Token
  unfolding encode hex
  derive secret customer_ref idempotency_key =
      let bytes = hmac secret (customer_ref ++ 0 ∷ idempotency_key) in
      if ltb (length secret) 32
      then err invalid_token
      else ok (record { raw = encode bytes; hash = hex (sha256 bytes) })

  -- `Generate`, from the random bytes, if there are any.
  unfoldable pub generate : Option Text → Option Token
  unfolding encode hex
  generate none = none
  generate (some bytes) = some (record { raw = encode bytes; hash = hex (sha256 bytes) })

  derive-Token :
      (secret customer_ref idempotency_key : Text) {token : Token}
      → derive secret customer_ref idempotency_key ≡ ok token
      → (token.raw ≡ encode (hmac secret (customer_ref ++ 0 ∷ idempotency_key)))
        × (token.hash ≡ hex (sha256 (hmac secret (customer_ref ++ 0 ∷ idempotency_key))))
  unfolding derive
  derive-Token secret customer_ref idempotency_key h = elim (Bool-cases (ltb (length secret) 32)) [
    | inl short ↦ absurd (ground arith)
    | inr long ↦ ground arith
  ]

  -- A token that is derived for a checkout hashes to the hash that the platform keeps with it,
  -- where the keyed hash gives 32 bytes.
  pub hash_token-derive :
      ((secret message : Text)
        → (length (hmac secret message) ≡ byte_length) × All IsByte (hmac secret message))
      → (secret customer_ref idempotency_key : Text) {token : Token}
      → derive secret customer_ref idempotency_key ≡ ok token
      → hash_token sha256 token.raw ≡ ok token.hash
  hash_token-derive digests secret customer_ref idempotency_key h =
      let (size, are_bytes) = digests secret (customer_ref ++ 0 ∷ idempotency_key) in
      let (raw, hash) = derive-Token secret customer_ref idempotency_key h in
      rw (raw, hash) (hash_token-encode sha256 _ size are_bytes)

-- `decodeCursor`; the error has no other use than to be one.
unfoldable pub decode_cursor : Text → Option Text
unfolding decode is_valid
decode_cursor [] = some []
decode_cursor (c ∷ t) = elim (decode (c ∷ t)) [
  | none ↦ none
  | some id ↦ if is_valid id then some id else none
]

-- `NextCursor` of `ListVenues`.
unfoldable pub encode_cursor : Text → Text
unfolding encode
encode_cursor [] = []
encode_cursor (c ∷ t) = encode (c ∷ t)

hex-IsByte : (t : Text) → All (λ c. (c == dash || is_hex c) ≡ true) t → All IsByte t
hex-IsByte [] h = tt
hex-IsByte (c ∷ t) h = (ground (arith, h.0), hex-IsByte t h.1)

decode_cursor-decode :
    (cursor id : Text)
    → decode cursor ≡ some id
    → is_valid id ≡ true
    → decode_cursor cursor ≡ some id
unfolding decode_cursor decode
decode_cursor-decode [] id h valid = ground arith
decode_cursor-decode (c ∷ t) id h valid = ground arith

-- The cursor of a page that ends at a valid identifier is read back as that identifier.
pub decode_cursor-encode_cursor :
    (id : Text) → is_valid id ≡ true → decode_cursor (encode_cursor id) ≡ some id
unfolding encode_cursor decode_cursor
decode_cursor-encode_cursor [] h = refl
decode_cursor-encode_cursor (c ∷ t) h =
    let (_, _, _, _, _, all) = is_valid-shape (c ∷ t) h in
    decode_cursor-decode (encode (c ∷ t)) (c ∷ t) (decode-encode (c ∷ t) (hex-IsByte (c ∷ t) all)) h
