-- ===== src/Shared/Uuid/Shape.antt =====
-- The texts that `IsValid` of internal/shared/uuid/uuid.go lets through.
use avito_kitchen.Base.{◌≡◌, true, ◌||◌, ◌==◌, [], ◌∷◌, Text, length, All, arith}
use avito_kitchen.Shared.Uuid.{dash, is_hex, has_dash, decodes, without_dashes, is_valid}

decodes-All : (t : Text) → decodes t ≡ true → All (λ c. is_hex c ≡ true) t
unfolding decodes
decodes-All [] h = tt
decodes-All (a ∷ []) h = cc
decodes-All (a ∷ b ∷ rest) h = ground (arith, decodes-All rest)

without_dashes-All :
    (t : Text)
    → All (λ c. is_hex c ≡ true) (without_dashes t)
    → All (λ c. (c == dash || is_hex c) ≡ true) t
without_dashes-All [] h = tt
without_dashes-All (c ∷ t) h = ground (arith, without_dashes-All t)

-- A text that passes as a UUID has 36 bytes, dashes at the places 8, 13, 18 and 23, and nothing but
-- dashes and hexadecimal digits.
pub is_valid-shape :
    (value : Text)
    → is_valid value ≡ true
    → (length value ≡ 36)
      × (has_dash value 8 ≡ true)
      × (has_dash value 13 ≡ true)
      × (has_dash value 18 ≡ true)
      × (has_dash value 23 ≡ true)
      × All (λ c. (c == dash || is_hex c) ≡ true) value
unfolding is_valid
is_valid-shape value h =
    ground (arith, without_dashes-All value, decodes-All (without_dashes value))
