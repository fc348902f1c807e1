-- ===== src/Shared/Tests.antt =====
-- The theorems on identifiers at concrete inputs, and texts that the check lets through.
use avito_kitchen.Base.{
  ◌≡◌, refl, [], ◌∷◌, true, false, ◌||◌, ◌==◌, Text, codes, length, All, arith,
}
use avito_kitchen.Shared.Uuid.{dash, is_hex, has_dash, decodes, is_valid}
use avito_kitchen.Shared.Environment.{split_csv, unsafe_token}
use avito_kitchen.Shared.Uuid.New.{new_uuid, is_valid-new_uuid}
use avito_kitchen.Shared.Uuid.Shape.{is_valid-shape}

abbrev value : Text
value = codes "0b7f1a52-9c3D-4e8a-bf01-23456789abCD"

valid : is_valid value ≡ true
unfolding is_valid decodes
valid = refl

-- A text of dashes alone is let through.
only_dashes : is_valid (codes "------------------------------------") ≡ true
unfolding is_valid decodes
only_dashes = refl

no_digit : is_valid (codes "0b7f1a52-9c3D-4e8a-bf01-23456789abCg") ≡ false
unfolding is_valid decodes
no_digit = refl

is_valid-shape_example :
    (length value ≡ 36)
    × (has_dash value 8 ≡ true)
    × (has_dash value 13 ≡ true)
    × (has_dash value 18 ≡ true)
    × (has_dash value 23 ≡ true)
    × All (λ c. (c == dash || is_hex c) ≡ true) value
is_valid-shape_example = is_valid-shape value valid

is_valid-new_uuid_example : is_valid (new_uuid 0 1 2 3 4 5 255 7 255 9 10 11 12 13 14 15) ≡ true
is_valid-new_uuid_example =
    is_valid-new_uuid 0 1 2 3 4 5 255 7 255 9 10 11 12 13 14 15 (ground arith)

origins : split_csv (codes " a, ,b,") ≡ codes "a" ∷ codes "b" ∷ []
unfolding split_csv
origins = refl

exposed_secret : unsafe_token (codes "dev-partner-token") ≡ true
unfolding unsafe_token
exposed_secret = refl
