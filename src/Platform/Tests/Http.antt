-- ===== src/Platform/Tests/Http.antt =====
-- Tokens, cursors and the limit on checkouts at concrete inputs.
use avito_kitchen.Base.{◌≡◌, ◌≤◌, ◌*◌, ◌+◌, refl, true, some, [], ◌∷◌, Text, codes, arith}
use avito_kitchen.Platform.Http.Limiter.{new_limiter, allow, allowed, allowed_bounds}
use avito_kitchen.Platform.Tokens.{
  Token, derive, hash_token, hash_token-derive, decode_cursor, encode_cursor,
  decode_cursor-encode_cursor,
}
use avito_kitchen.Shared.Base64.{encode}
use avito_kitchen.Shared.Strings.{trim_space, rune_count}
use avito_kitchen.Shared.Transaction.{ok}
use avito_kitchen.Shared.Uuid.{is_valid, decodes}
use avito_kitchen.Shared.Uuid.New.{hex}

-- No-break spaces and other white space around a text, and a text of two runes.
trimmed_text : trim_space (32 ∷ 194 ∷ 160 ∷ 75 ∷ 32 ∷ 75 ∷ 226 ∷ 128 ∷ 131 ∷ 10 ∷ []) ≡ codes "K K"
unfolding trim_space
trimmed_text = refl

two_runes : rune_count (208 ∷ 154 ∷ 240 ∷ 159 ∷ 141 ∷ 149 ∷ []) ≡ 2
unfolding rune_count
two_runes = refl

-- The three lengths of a text that is encoded.
encoded_text : encode (codes "cursor") ≡ codes "Y3Vyc29y"
unfolding encode
encoded_text = refl

encoded_rest : encode (codes "curs") ≡ codes "Y3Vycw"
unfolding encode
encoded_rest = refl

abbrev digest : Text → Text
digest t =
    1 ∷ 2 ∷ 3 ∷ 4 ∷ 5 ∷ 6 ∷ 7 ∷ 8 ∷ 9 ∷ 10 ∷ 11 ∷ 12 ∷ 13 ∷ 14 ∷ 15 ∷ 16 ∷ 17 ∷ 18 ∷ 19 ∷ 20 ∷ 21
    ∷ 22 ∷ 23 ∷ 24 ∷ 25 ∷ 26 ∷ 27 ∷ 28 ∷ 29 ∷ 30 ∷ 31 ∷ 255 ∷ []

abbrev secret : Text
secret = codes "0123456789abcdef0123456789abcdef"

abbrev token : Token
token = record { raw = encode (digest []); hash = hex (digest []) }

derived : derive digest (λ s m. digest m) secret (codes "customer") (codes "key") ≡ ok token
unfolding derive
derived = refl

hash_token-derive_example : hash_token digest token.raw ≡ ok token.hash
hash_token-derive_example =
    hash_token-derive digest (λ s m. digest m) (λ s m. (refl, ground arith)) secret
      (codes "customer") (codes "key") derived

abbrev venue_id : Text
venue_id = codes "0b7f1a52-9c3d-4e8a-bf01-23456789abcd"

valid_id : is_valid venue_id ≡ true
unfolding is_valid decodes
valid_id = refl

decode_cursor-encode_cursor_example : decode_cursor (encode_cursor venue_id) ≡ some venue_id
decode_cursor-encode_cursor_example = decode_cursor-encode_cursor venue_id valid_id

-- Two are let through in a window of a second, and two more in the next.
allowed_four : allowed (new_limiter 2) (5 ∷ 6 ∷ 7 ∷ 1000005 ∷ 1000006 ∷ 1000007 ∷ []) ≡ 4
unfolding allowed allow
allowed_four = refl

allowed_bounds_example : allowed (new_limiter 2) (5 ∷ 6 ∷ 7 ∷ []) + 0 ≤ 2 * 2
allowed_bounds_example =
    allowed_bounds (new_limiter 2) 5 (5 ∷ 6 ∷ 7 ∷ []) (ground arith) (ground arith)
