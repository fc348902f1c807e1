-- ===== src/Shared/Uuid.antt =====
-- `IsValid` of internal/shared/uuid/uuid.go, over the bytes of a text.
pub mod Shape
pub mod New
use avito_kitchen.Base.{
  ℕ, ◌≡◌, refl, Bool, true, false, ◌&&◌, ◌||◌, not, ◌==◌, leb, Option, none, some, List, [], ◌∷◌,
  Text, length, get_elem?, select, if◌then◌else◌,
}

-- `'-'`.
abbrev pub dash : ℕ
dash = 45

-- `value[i] == '-'`, of a text that is long enough.
abbrev pub has_dash : Text → ℕ → Bool
has_dash value i = elim (get_elem? value i) [ none ↦ false | some c ↦ c == dash ]

-- `0-9`, `a-f` and `A-F`.
abbrev pub is_hex : ℕ → Bool
is_hex c = leb 48 c && leb c 57 || leb 97 c && leb c 102 || leb 65 c && leb c 70

-- `hex.DecodeString` gives no error: an even number of digits.
unfoldable pub decodes : Text → Bool
decodes [] = true
decodes (a ∷ []) = false
decodes (a ∷ b ∷ rest) = is_hex a && is_hex b && decodes rest

-- `strings.ReplaceAll(value, "-", "")`.
abbrev pub without_dashes : Text → Text
without_dashes = select (λ c. not (c == dash))

unfoldable pub is_valid : Text → Bool
unfolding decodes
is_valid value =
    length value == 36
    && has_dash value 8
    && has_dash value 13
    && has_dash value 18
    && has_dash value 23
    && decodes (without_dashes value)
