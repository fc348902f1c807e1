-- ===== src/Platform/System/Kept.antt =====
-- What a checkout writes of an order and no other statement of internal/platform/repository
-- changes: the columns that no `UPDATE orders` sets.
use avito_kitchen.Base.{
  ◌≡◌, refl, ap, ◌∙◌, Bool, Option, none, some, List, Text, find_row, update_where, insert_row,
  find_row-update_where, find_row-insert, Bool-cases, inl, inr,
}
use avito_kitchen.Platform.Store.{OrderRow}
use avito_kitchen.Platform.Store
use avito_kitchen.Platform.Checkout.{has_key}

-- The row without the columns that change.
abbrev pub as_placed : OrderRow → OrderRow
as_placed r = record r {
  external_order_id = none;
  status = Store.pending_confirmation;
  cancellation_status = Store.no_cancellation;
  rejection_reason = none;
  venue_event_sequence = 0;
  updated_at = 0;
}

-- An order is found, and it is the one that was placed.
abbrev pub IsKept : OrderRow → Option OrderRow → Type 0
IsKept o found = (o' : OrderRow) × (found ≡ some o') × (as_placed o' ≡ as_placed o)

has_key-as_placed :
    (customer_ref key : Text) (r s : OrderRow)
    → as_placed s ≡ as_placed r
    → has_key customer_ref key s ≡ has_key customer_ref key r
has_key-as_placed customer_ref key r s e = ap (has_key customer_ref key) e

pub update_where-IsKept :
    (p : OrderRow → Bool) (f : OrderRow → OrderRow)
    → ((r : OrderRow) → as_placed (f r) ≡ as_placed r)
    → (xs : List OrderRow) (customer_ref key : Text) {o : OrderRow}
    → find_row (has_key customer_ref key) xs ≡ some o
    → IsKept o (find_row (has_key customer_ref key) (update_where p f xs))
update_where-IsKept p f keeps xs customer_ref key {o} found =
    let e =
      find_row-update_where (has_key customer_ref key) p f
        (λ r. has_key-as_placed customer_ref key r (f r) (keeps r)) xs found in
    elim (Bool-cases (p o)) [
      | inl chosen ↦ (f o, e ∙ rw chosen refl, keeps o)
      | inr other ↦ (o, e ∙ rw other refl, refl)
    ]

pub insert_row-IsKept :
    (x : OrderRow) (xs : List OrderRow) (customer_ref key : Text) {o : OrderRow}
    → find_row (has_key customer_ref key) xs ≡ some o
    → IsKept o (find_row (has_key customer_ref key) (insert_row x xs))
insert_row-IsKept x xs customer_ref key {o} found =
    (o, find_row-insert (has_key customer_ref key) x xs found, refl)
