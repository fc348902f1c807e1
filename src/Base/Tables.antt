-- ===== src/Base/Tables.antt =====
-- A table of a database as the list of its rows, and the statements that the program runs on one.
use Prim.Native.Nat.{ℕ, zero, suc, ◌+◌}
use mathlib.Core.Path.{◌≡◌, refl, subst, ap}
use mathlib.Core.Logic.{inl, inr}
use mathlib.Core.Bool.{Bool, true, false, ◌||◌}
use mathlib.Core.Option.{Option, none, some}
use mathlib.Core.List.{List, [], ◌∷◌, ◌++◌, Memᴰ}
use native.Mathlib.Omega.{arith}
use avito_kitchen.Base.Tests.{if◌then◌else◌, bit, leb, Bool-cases}

module _ {ℓ} {A : Type ℓ} where
  abbrev pub length : List A → ℕ
  length [] = 0
  length (x ∷ xs) = suc (length xs)

  -- `SELECT … WHERE p`.
  abbrev pub select : (A → Bool) → List A → List A
  select p [] = []
  select p (x ∷ xs) = let rest = select p xs in if p x then x ∷ rest else rest

  -- `QueryRow`: the first row, or `pgx.ErrNoRows`.
  abbrev pub find_row : (A → Bool) → List A → Option A
  find_row p [] = none
  find_row p (x ∷ xs) = let rest = find_row p xs in if p x then some x else rest

  -- `UPDATE … SET f WHERE p`.
  abbrev pub update_where : (A → Bool) → (A → A) → List A → List A
  update_where p f [] = []
  update_where p f (x ∷ xs) = (if p x then f x else x) ∷ update_where p f xs

  -- The number of rows that satisfy `p`: `RowsAffected` of such an update.
  abbrev pub count_where : (A → Bool) → List A → ℕ
  count_where p [] = 0
  count_where p (x ∷ xs) = bit (p x) + count_where p xs

  -- `SELECT EXISTS`.
  abbrev pub exists_row : (A → Bool) → List A → Bool
  exists_row p [] = false
  exists_row p (x ∷ xs) = p x || exists_row p xs

  -- `INSERT`: the rows of a table stand in the order of insertion.
  abbrev pub insert_row : A → List A → List A
  insert_row x xs = xs ++ x ∷ []

  -- `ORDER BY key`, stable.
  abbrev pub insert_by : (A → ℕ) → A → List A → List A
  insert_by key x [] = x ∷ []
  insert_by key x (y ∷ ys) =
      let rest = insert_by key x ys in if leb (key x) (key y) then x ∷ y ∷ ys else y ∷ rest

  abbrev pub order_by : (A → ℕ) → List A → List A
  order_by key [] = []
  order_by key (x ∷ xs) = insert_by key x (order_by key xs)

  -- The element after which a loop `for i, x := range xs` has counted `i`.
  abbrev pub get_elem? : List A → ℕ → Option A
  get_elem? [] i = none
  get_elem? (x ∷ xs) zero = some x
  get_elem? (x ∷ xs) (suc i) = get_elem? xs i

  abbrev pub take : ℕ → List A → List A
  take zero xs = []
  take (suc n) [] = []
  take (suc n) (x ∷ xs) = x ∷ take n xs

-- Every element satisfies a predicate.
abbrev pub All {ℓ κ} : {A : Type ℓ} → (A → Type κ) → List A → Type κ
All P [] = Unit
All P (x ∷ xs) = P x × All P xs

module _ {ℓ} {A : Type ℓ} where
  pub length-append : (xs ys : List A) → length (xs ++ ys) ≡ length xs + length ys
  length-append [] ys = omega arith
  length-append (x ∷ xs) ys = omega (arith, length-append xs ys)

  pub count_where-insert_row :
      (p : A → Bool) (x : A) (xs : List A)
      → count_where p (insert_row x xs) ≡ count_where p xs + bit (p x)
  count_where-insert_row p x [] = omega arith
  count_where-insert_row p x (y ∷ ys) = omega (arith, count_where-insert_row p x ys)

pub weaken-All {ℓ κ ι} :
    {A : Type ℓ} (P : A → Type κ) (Q : A → Type ι)
    → ((a : A) → P a → Q a)
    → (xs : List A) → All P xs
    → All Q xs
weaken-All P Q f [] h = tt
weaken-All P Q f (x ∷ xs) h = (f x h.0, weaken-All P Q f xs h.1)

-- What holds of every row holds of those that a statement selects, sorts or takes first.
module _ {A : Type 0} (P : A → Type 0) where
  pub insert_by-All :
      (key : A → ℕ) (x : A) (xs : List A) → P x → All P xs → All P (insert_by key x xs)
  insert_by-All key x [] p h = (p, tt)
  insert_by-All key x (y ∷ ys) p h = elim (Bool-cases (leb (key x) (key y))) [
    | inl before ↦ rw before (p, h)
    | inr after ↦ rw after (h.0, insert_by-All key x ys p h.1)
  ]

  pub order_by-All : (key : A → ℕ) (xs : List A) → All P xs → All P (order_by key xs)
  order_by-All key [] h = tt
  order_by-All key (x ∷ xs) h = insert_by-All key x (order_by key xs) h.0 (order_by-All key xs h.1)

  pub first-All : (xs : List A) → All P xs → {x : A} → find_row (λ _. true) xs ≡ some x → P x
  first-All [] h e = absurd cc
  first-All (y ∷ ys) h e = subst P (ap (λ o. elim o [ none ↦ y | some z ↦ z ]) e) h.0

pub select-All : {A : Type 0} (p : A → Bool) (xs : List A) → All (λ x. p x ≡ true) (select p xs)
select-All p [] = tt
select-All p (x ∷ xs) = elim (Bool-cases (p x)) [
  | inl holds ↦ rw holds (holds, select-All p xs)
  | inr fails ↦ rw fails (select-All p xs)
]

pub select_keeps-All :
    {A : Type 0} (P : A → Type 0) (p : A → Bool) (xs : List A) → All P xs → All P (select p xs)
select_keeps-All P p [] h = tt
select_keeps-All P p (x ∷ xs) h = elim (Bool-cases (p x)) [
  | inl holds ↦ rw holds (h.0, select_keeps-All P p xs h.1)
  | inr fails ↦ rw fails (select_keeps-All P p xs h.1)
]

pub update_where-All :
    {A : Type 0} (P Q : A → Type 0) (p : A → Bool) (f : A → A)
    → ((x : A) → P x → Q x)
    → ((x : A) → P x → Q (f x))
    → (xs : List A) → All P xs
    → All Q (update_where p f xs)
update_where-All P Q p f same_row new_row [] h = tt
update_where-All P Q p f same_row new_row (x ∷ xs) h = elim (Bool-cases (p x)) [
  | inl holds ↦ rw holds (new_row x h.0, update_where-All P Q p f same_row new_row xs h.1)
  | inr fails ↦ rw fails (same_row x h.0, update_where-All P Q p f same_row new_row xs h.1)
]

pub own_row-All : {A : Type 0} (xs : List A) → All (λ x. Memᴰ x xs) xs
own_row-All [] = tt
own_row-All (x ∷ xs) = (Memᴰ.head refl, weaken-All _ _ (λ r h. Memᴰ.tail h) xs (own_row-All xs))

-- A row that a query finds, after statements that leave the answer of its test alone.
module _ {A : Type 0} (q : A → Bool) where
  pub find_row-update_where :
      (p : A → Bool) (f : A → A)
      → ((x : A) → q (f x) ≡ q x)
      → (xs : List A) {x : A} → find_row q xs ≡ some x
      → find_row q (update_where p f xs) ≡ some (if p x then f x else x)
  find_row-update_where p f keeps [] h = cc
  find_row-update_where p f keeps (y ∷ ys) {x} h =
      ground (arith, keeps y, find_row-update_where p f keeps ys {x = x})

  pub find_row-insert :
      (y : A) (xs : List A) {x : A} → find_row q xs ≡ some x → find_row q (insert_row y xs) ≡ some x
  find_row-insert y [] h = cc
  find_row-insert y (z ∷ zs) {x} h = ground (arith, find_row-insert y zs {x = x})
