-- ===== src/Shared/Uuid/New.antt =====
-- `New` of internal/shared/uuid/uuid.go, and `newUUID` of internal/shared/httpx/httpx.go where the
-- random source does not fail.
use avito_kitchen.Base.{
  ℕ, ◌+◌, ◌/◌, ◌%◌, ◌<◌, ◌≡◌, refl, sym, subst, ◌∙◌, true, [], ◌∷◌, ◌++◌, Text, ltb, if◌then◌else◌,
  arith, All,
}
use avito_kitchen.Shared.Uuid.{dash, is_hex, decodes, without_dashes, is_valid}

-- A digit of `hex.EncodeToString`, in lower case.
unfoldable pub hex_digit : ℕ → ℕ
hex_digit v = if ltb v 10 then 48 + v else 87 + v

-- `hex.EncodeToString`.
unfoldable pub hex : Text → Text
unfolding hex_digit
hex [] = []
hex (c ∷ t) = hex_digit (c / 16) ∷ hex_digit (c % 16) ∷ hex t

-- `(value[6] & 0x0f) | 0x40`, and `(value[8] & 0x3f) | 0x80`.
abbrev version_byte : ℕ → ℕ
version_byte c = c % 16 + 64

abbrev variant_byte : ℕ → ℕ
variant_byte c = c % 64 + 128

-- `New`, from the sixteen random bytes.
unfoldable pub new_uuid : ℕ → ℕ → ℕ → ℕ → ℕ → ℕ → ℕ → ℕ → ℕ → ℕ → ℕ → ℕ → ℕ → ℕ → ℕ → ℕ → Text
unfolding hex
new_uuid a b c d e f g h i j k l m n o p =
    hex (a ∷ b ∷ c ∷ d ∷ [])
    ++ dash ∷ hex (e ∷ f ∷ [])
    ++ dash ∷ hex (version_byte g ∷ h ∷ [])
    ++ dash ∷ hex (variant_byte i ∷ j ∷ [])
    ++ dash ∷ hex (k ∷ l ∷ m ∷ n ∷ o ∷ p ∷ [])

is_hex-hex_digit : (v : ℕ) → v < 16 → is_hex (hex_digit v) ≡ true
unfolding hex_digit
is_hex-hex_digit v h = ground arith

hex-All : (t : Text) → All (λ c. c < 256) t → All (λ c. is_hex c ≡ true) (hex t)
unfolding hex
hex-All [] h = tt
hex-All (c ∷ t) h = (
  is_hex-hex_digit (c / 16) (omega (arith, h.0)),
  (is_hex-hex_digit (c % 16) (omega arith), hex-All t h.1),
)

kept_digits :
    (t u : Text) → All (λ c. is_hex c ≡ true) t → without_dashes (t ++ u) ≡ t ++ without_dashes u
kept_digits [] u h = refl
kept_digits (c ∷ t) u h = ground (arith, h.0, kept_digits t u h.1)

decodes-hex : (t u : Text) → All (λ c. c < 256) t → decodes (hex t ++ u) ≡ decodes u
unfolding decodes hex
decodes-hex [] u h = refl
decodes-hex (c ∷ t) u h = ground (
  arith,
  is_hex-hex_digit (c / 16) (omega (arith, h.0)),
  is_hex-hex_digit (c % 16) (omega arith),
  decodes-hex t u h.1,
)

-- The digits of some bytes, a dash, and what follows.
decodes-group :
    (t u : Text)
    → All (λ c. c < 256) t
    → decodes (without_dashes (hex t ++ dash ∷ u)) ≡ decodes (without_dashes u)
decodes-group t u h =
    subst (λ v. decodes v ≡ decodes (without_dashes u))
      (sym (kept_digits (hex t) (dash ∷ u) (hex-All t h))) (decodes-hex t (without_dashes u) h)

decodes-last : (t : Text) → All (λ c. c < 256) t → decodes (without_dashes (hex t ++ [])) ≡ true
unfolding decodes
decodes-last t h =
    subst (λ v. decodes v ≡ true) (sym (kept_digits (hex t) [] (hex-All t h))) (decodes-hex t [] h)

module _ (a b c d e f g h i j k l m n o p : ℕ) where
  -- An identifier that is made of sixteen bytes, whichever they are, passes the check of
  -- identifiers.
  pub is_valid-new_uuid :
      All (λ x. x < 256) (a ∷ b ∷ c ∷ d ∷ e ∷ f ∷ g ∷ h ∷ i ∷ j ∷ k ∷ l ∷ m ∷ n ∷ o ∷ p ∷ [])
      → is_valid (new_uuid a b c d e f g h i j k l m n o p) ≡ true
  unfolding new_uuid is_valid hex
  is_valid-new_uuid
        (
          pa,
          (
            pb,
            (pc, (pd, (pe, (pf, (pg, (ph, (pi, (pj, (pk, (pl, (pm, (pn, (po, (pp, _)))))))))))))),
          ),
        ) =
      let version : version_byte g < 256 = omega arith in
      let variant : variant_byte i < 256 = omega arith in
      let fifth = hex (k ∷ l ∷ m ∷ n ∷ o ∷ p ∷ []) in
      let fourth = hex (variant_byte i ∷ j ∷ []) ++ dash ∷ fifth in
      let third = hex (version_byte g ∷ h ∷ []) ++ dash ∷ fourth in
      let second = hex (e ∷ f ∷ []) ++ dash ∷ third in
      decodes-group (a ∷ b ∷ c ∷ d ∷ []) second (pa, (pb, (pc, (pd, tt))))
      ∙ decodes-group (e ∷ f ∷ []) third (pe, (pf, tt))
      ∙ decodes-group (version_byte g ∷ h ∷ []) fourth (version, (ph, tt))
      ∙ decodes-group (variant_byte i ∷ j ∷ []) fifth (variant, (pj, tt))
      ∙ decodes-last (k ∷ l ∷ m ∷ n ∷ o ∷ p ∷ []) (pk, (pl, (pm, (pn, (po, (pp, tt))))))
