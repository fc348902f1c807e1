-- ===== src/Base/Texts.antt =====
-- A Go string is a sequence of bytes. Literals of the source are ASCII.
use Prim.Native.Char.{code}
use Prim.Native.Nat.{ℕ}
use Prim.Native.String.{String}
use mathlib.Core.Path.{◌≡◌, refl}
use mathlib.Core.Bool.{Bool, true, false}
use mathlib.Core.Logic.{◌≢◌}
use mathlib.Core.List.{List, [], ◌∷◌}
use native.Mathlib.Decide.{ℕ_discrete}
use native.Mathlib.Omega.{arith}

abbrev pub Text : Type 0
Text = List ℕ

abbrev pub codes : String → Text
codes String.[] = []
codes (String.◌∷◌ c s) = code c ∷ codes s

unfoldable pub Text_discrete : Discrete Text
unfolding ℕ_discrete
Text_discrete [] [] = yes refl
Text_discrete [] (y ∷ ys) = no (λ e. cc)
Text_discrete (x ∷ xs) [] = no (λ e. cc)
Text_discrete (x ∷ xs) (y ∷ ys) = elim (ℕ_discrete x y) [
  | no n ↦ no (λ e. n (cc e))
  | yes p ↦ elim (Text_discrete xs ys) [ no n ↦ no (λ e. n (cc e)) | yes q ↦ yes (cc (p, q)) ]
]

-- `a == b` on strings.
abbrev pub same : Text → Text → Bool
same a b = elim (Text_discrete a b) [ yes _ ↦ true | no _ ↦ false ]

pub same_refl : (a : Text) → same a a ≡ true
same_refl a = ground arith

pub same→eq : (a b : Text) → same a b ≡ true → a ≡ b
same→eq a b h = ground arith

pub same_ne : (a b : Text) → a ≢ b → same a b ≡ false
same_ne a b h = ground arith

pub same_comm : (a b : Text) → same a b ≡ same b a
same_comm a b = ground arith
