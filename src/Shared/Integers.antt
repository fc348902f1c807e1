-- ===== src/Shared/Integers.antt =====
-- The integers that the services read from JSON, before they are checked.
use avito_kitchen.Base.{ℕ, Bool, true, false, ltb}

-- `pos n` is n, and `negsuc n` is -(n + 1).
pub data ℤ : Type 0 where
  pos negsuc : ℕ → ℤ

-- `z < n` and `z > n` for a literal n.
abbrev pub is_less : ℤ → ℕ → Bool
is_less (pos m) n = ltb m n
is_less (negsuc m) n = true

abbrev pub is_greater : ℤ → ℕ → Bool
is_greater (pos m) n = ltb n m
is_greater (negsuc m) n = false

-- The number itself, where it is not negative.
abbrev pub to_nat : ℤ → ℕ
to_nat (pos m) = m
to_nat (negsuc m) = 0
