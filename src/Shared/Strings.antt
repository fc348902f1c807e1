-- ===== src/Shared/Strings.antt =====
-- What the services use of Go's `strings` and `unicode/utf8` on the bytes of a text, and the checks
-- of texts that internal/platform/service/service.go, internal/venue/service/service.go and the
-- two dto.go share.
use avito_kitchen.Base.{
  ℕ, zero, suc, ◌+◌, ◌-◌, Bool, true, false, ◌&&◌, ◌||◌, not, ◌==◌, leb, [], ◌∷◌, Text, length,
  if◌then◌else◌,
}

abbrev is_between : ℕ → ℕ → ℕ → Bool
is_between low high c = leb low c && leb c high

-- The white space of Unicode in two bytes: U+0085 and U+00A0.
abbrev is_space2 : ℕ → ℕ → Bool
is_space2 a b = a == 194 && (b == 133 || b == 160)

-- In three bytes: U+1680, U+2000 to U+200A, U+2028, U+2029, U+202F, U+205F and U+3000.
abbrev is_space3 : ℕ → ℕ → ℕ → Bool
is_space3 a b c =
    a == 225 && b == 154 && c == 128
    || a == 226 && b == 128 && (is_between 128 138 c || c == 168 || c == 169 || c == 175)
    || a == 226 && b == 129 && c == 159
    || a == 227 && b == 128 && c == 128

-- `unicode.IsSpace` of an ASCII byte.
abbrev is_space1 : ℕ → Bool
is_space1 a = a == 32 || is_between 9 13 a

-- The number of bytes of the white space that a text begins with, 0 where it begins with other.
unfoldable pub space_size : Text → ℕ
space_size [] = 0
space_size (a ∷ []) = if is_space1 a then 1 else 0
space_size (a ∷ b ∷ []) = if is_space1 a then 1 else if is_space2 a b then 2 else 0
space_size (a ∷ b ∷ c ∷ t) =
    if is_space1 a then 1 else if is_space2 a b then 2 else if is_space3 a b c then 3 else 0

-- The same of a text read from its end.
unfoldable pub end_space_size : Text → ℕ
end_space_size [] = 0
end_space_size (a ∷ []) = if is_space1 a then 1 else 0
end_space_size (a ∷ b ∷ []) = if is_space1 a then 1 else if is_space2 b a then 2 else 0
end_space_size (a ∷ b ∷ c ∷ t) =
    if is_space1 a then 1 else if is_space2 b a then 2 else if is_space3 c b a then 3 else 0

-- A text without its first white space. `skip` counts the bytes of a rune that are still to go.
unfoldable pub trim : (Text → ℕ) → ℕ → Text → Text
trim size skip [] = []
trim size (suc skip) (a ∷ t) = trim size skip t
trim size zero (a ∷ t) =
    let rest = trim size (size (a ∷ t) - 1) t in if size (a ∷ t) == 0 then a ∷ t else rest

unfoldable pub reversed : Text → Text → Text
reversed done [] = done
reversed done (a ∷ t) = reversed (a ∷ done) t

-- `strings.TrimSpace`.
unfoldable pub trim_space : Text → Text
unfolding trim space_size end_space_size reversed
trim_space t = reversed [] (trim end_space_size 0 (reversed [] (trim space_size 0 t)))

abbrev is_tail : ℕ → Bool
is_tail = is_between 128 191

-- A rune of three bytes, without the surrogates, and one of four.
abbrev is_rune3 : ℕ → ℕ → ℕ → Bool
is_rune3 a b c =
    is_tail c
    && (a == 224 && is_between 160 191 b
        || a == 237 && is_between 128 159 b
        || is_between 225 239 a && not (a == 237) && is_tail b)

abbrev is_rune4 : ℕ → ℕ → ℕ → ℕ → Bool
is_rune4 a b c d =
    is_tail c
    && is_tail d
    && (a == 240 && is_between 144 191 b
        || a == 244 && is_between 128 143 b
        || is_between 241 243 a && is_tail b)

-- The number of bytes of the rune that a text begins with: 1 for a byte that begins no rune.
unfoldable pub rune_size : Text → ℕ
rune_size [] = 0
rune_size (a ∷ []) = 1
rune_size (a ∷ b ∷ []) = if is_between 194 223 a && is_tail b then 2 else 1
rune_size (a ∷ b ∷ c ∷ []) =
    if is_between 194 223 a && is_tail b then 2 else if is_rune3 a b c then 3 else 1
rune_size (a ∷ b ∷ c ∷ d ∷ t) =
    if is_between 194 223 a && is_tail b
    then 2
    else if is_rune3 a b c
    then 3
    else if is_rune4 a b c d
    then 4
    else 1

-- `utf8.RuneCountInString`; `skip` as above.
unfoldable pub rune_count_from : ℕ → Text → ℕ
unfolding rune_size
rune_count_from skip [] = 0
rune_count_from (suc skip) (a ∷ t) = rune_count_from skip t
rune_count_from zero (a ∷ t) = 1 + rune_count_from (rune_size (a ∷ t) - 1) t

unfoldable pub rune_count : Text → ℕ
unfolding rune_count_from
rune_count t = rune_count_from 0 t

abbrev pub is_empty : Text → Bool
is_empty [] = true
is_empty (a ∷ t) = false

-- `validRequiredText`.
unfoldable pub valid_required_text : Text → ℕ → Bool
unfolding trim_space rune_count
valid_required_text value max_runes =
    not (is_empty (trim_space value)) && leb (rune_count value) max_runes

-- `validOptionalText`.
unfoldable pub valid_optional_text : Text → ℕ → Bool
unfolding rune_count
valid_optional_text value max_runes = leb (rune_count value) max_runes

unfoldable pub all_capitals : Text → Bool
all_capitals [] = true
all_capitals (a ∷ t) = is_between 65 90 a && all_capitals t

-- `validCurrency`.
unfoldable pub valid_currency : Text → Bool
unfolding all_capitals
valid_currency value = length value == 3 && all_capitals value
