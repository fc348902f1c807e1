-- ===== src/Shared/Base64.antt =====
-- `base64.RawURLEncoding` and `hex.EncodeToString`, which the cursors of
-- internal/platform/service/service.go and the tokens of internal/platform/security/ordertoken use.
use avito_kitchen.Base.{
  ℕ, ◌+◌, ◌-◌, ◌*◌, ◌/◌, ◌%◌, ◌<◌, ◌≡◌, refl, Bool, false, not, ◌&&◌, ◌||◌, ◌==◌, leb, ltb, Option,
  none, some, List, [], ◌∷◌, Text, select, if◌then◌else◌, arith, All, map,
}

infixl 5 ◌>>=◌
abbrev ◌>>=◌ : {A B : Type 0} → Option A → (A → Option B) → Option B
none >>= f = none
some a >>= f = f a

-- The alphabet `A-Z`, `a-z`, `0-9`, `-` and `_`.
unfoldable pub digit : ℕ → ℕ
digit v =
    if ltb v 26
    then 65 + v
    else if ltb v 52
    then 71 + v
    else if ltb v 62
    then v - 4
    else if v == 62
    then 45
    else 95

unfoldable pub value_of : ℕ → Option ℕ
value_of c =
    if leb 65 c && leb c 90
    then some (c - 65)
    else if leb 97 c && leb c 122
    then some (c - 71)
    else if leb 48 c && leb c 57
    then some (c + 4)
    else if c == 45
    then some 62
    else if c == 95
    then some 63
    else none

-- The numbers below 64 that three bytes at a time are cut into; there is no padding.
unfoldable pub sextets : Text → List ℕ
sextets [] = []
sextets (a ∷ []) = (a / 4) ∷ (a % 4 * 16) ∷ []
sextets (a ∷ b ∷ []) = (a / 4) ∷ (a % 4 * 16 + b / 16) ∷ (b % 16 * 4) ∷ []
sextets (a ∷ b ∷ c ∷ t) =
    (a / 4) ∷ (a % 4 * 16 + b / 16) ∷ (b % 16 * 4 + c / 64) ∷ (c % 64) ∷ sextets t

-- `EncodeToString`.
unfoldable pub encode : Text → Text
unfolding sextets digit
encode t = map digit (sextets t)

-- The digits' values; `none` is a byte out of the alphabet.
unfoldable pub values : Text → Option Text
unfolding value_of
values [] = some []
values (c ∷ t) = do v ← value_of c; vs ← values t; some (v ∷ vs)

-- The bytes of the values. One value alone is an error; the last bits of two or three are ignored.
unfoldable pub bytes_of : Text → Option Text
bytes_of [] = some []
bytes_of (u ∷ []) = none
bytes_of (u ∷ v ∷ []) = some ((u * 4 + v / 16) ∷ [])
bytes_of (u ∷ v ∷ w ∷ []) = some ((u * 4 + v / 16) ∷ (v % 16 * 16 + w / 4) ∷ [])
bytes_of (u ∷ v ∷ w ∷ x ∷ t) = do
  rest ← bytes_of t
  some ((u * 4 + v / 16) ∷ (v % 16 * 16 + w / 4) ∷ (w % 4 * 64 + x) ∷ rest)

-- The decoder passes over `\r` and `\n`.
abbrev pub is_line_break : ℕ → Bool
is_line_break c = c == 10 || c == 13

-- `DecodeString`.
unfoldable pub decode : Text → Option Text
unfolding values bytes_of
decode t = do vs ← values (select (λ c. not (is_line_break c)) t); bytes_of vs

abbrev pub IsByte : ℕ → Type 0
IsByte c = c < 256

value_of-digit : (v : ℕ) → v < 64 → value_of (digit v) ≡ some v
unfolding value_of digit
value_of-digit v h = ground arith

digit_kept : (v : ℕ) → v < 64 → is_line_break (digit v) ≡ false
unfolding digit
digit_kept v h = ground arith

values-digits :
    (vs : List ℕ)
    → All (λ v. v < 64) vs
    → values (select (λ c. not (is_line_break c)) (map digit vs)) ≡ some vs
unfolding values
values-digits [] h = refl
values-digits (v ∷ vs) h =
    ground (arith, value_of-digit v h.0, digit_kept v h.0, values-digits vs h.1)

sextets-All : (t : Text) → All IsByte t → All (λ v. v < 64) (sextets t)
unfolding sextets
sextets-All [] h = tt
sextets-All (a ∷ []) h = let (p, _) = h in (omega arith, (omega arith, tt))
sextets-All (a ∷ b ∷ []) h = let (p, (q, _)) = h in (omega arith, (omega arith, (omega arith, tt)))
sextets-All (a ∷ b ∷ c ∷ t) h =
    let (p, (q, (r, rest))) = h in
    (omega arith, (omega arith, (omega arith, (omega arith, sextets-All t rest))))

-- The bytes come back from the pieces.
first_byte : (a b : ℕ) → b < 256 → a / 4 * 4 + (a % 4 * 16 + b / 16) / 16 ≡ a
first_byte a b h = omega arith

second_byte :
    (a b c : ℕ)
    → b < 256
    → c < 256
    → (a % 4 * 16 + b / 16) % 16 * 16 + (b % 16 * 4 + c / 64) / 4 ≡ b
second_byte a b c h k = omega arith

bytes_of-sextets : (t : Text) → All IsByte t → bytes_of (sextets t) ≡ some t
unfolding bytes_of sextets
bytes_of-sextets [] h = refl
bytes_of-sextets (a ∷ []) h = ground (arith, first_byte a 0)
bytes_of-sextets (a ∷ b ∷ []) h =
    let (p, (q, _)) = h in ground (arith, first_byte a b q, second_byte a b 0 q)
bytes_of-sextets (a ∷ b ∷ c ∷ t) h =
    let (p, (q, (r, rest))) = h in
    let third : (b % 16 * 4 + c / 64) % 4 * 64 + c % 64 ≡ c = omega arith in
    ground (arith, first_byte a b q, second_byte a b c q r, third, bytes_of-sextets t rest)

-- x
pub decode-encode : (t : Text) → All IsByte t → decode (encode t) ≡ some t
unfolding decode encode
decode-encode t h =
    ground (arith, values-digits (sextets t) (sextets-All t h), bytes_of-sextets t h)
