-- ===== src/Venue/Decide/Totals.antt =====
-- What an accepted order comes to: the loop over `command.Items` of `DecideOrder`.
use avito_kitchen.Base.{
  ℕ, ◌+◌, ◌*◌, ◌≤◌, ◌≡◌, none, some, List, [], ◌∷◌, Text, arith, mul_checked, Option-cases,
  Bool-cases, inl, inr, map_get,
}
use avito_kitchen.Venue.Store.{OrderItem, ManagedOrderItem, MenuItemRow}
use avito_kitchen.Venue.Decide.{
  Priced, price_items, max_int64, is_changed, is_unavailable, managed_item,
}
use avito_kitchen.Shared.Transaction.{ok, Result-cases}

-- The sum of the totals of the items.
abbrev pub items_total : List ManagedOrderItem → ℕ
items_total [] = 0
items_total (i ∷ is) = i.total_price + items_total is

-- The items are the requested ones, in their order, at the price that the customer expected.
abbrev pub AreAsRequested : List OrderItem → List ManagedOrderItem → Type 0
AreAsRequested [] [] = Unit
AreAsRequested (r ∷ rs) (i ∷ is) =
    (i.external_item_id ≡ r.external_item_id)
    × (i.quantity ≡ r.quantity)
    × (i.unit_price ≡ r.expected_unit_price)
    × (i.total_price ≡ r.expected_unit_price * r.quantity)
    × AreAsRequested rs is
AreAsRequested _ _ = ⊥

-- Where the loop that prices a command of the platform, started at a total that fits in 64 bits,
-- finds every item there, its items are the requested ones in their order, at the expected prices,
-- and its total is the start plus the sum of their totals and fits in 64 bits.
pub price_items-agrees :
    (menu : List (Text × MenuItemRow)) (currency : Text) (total : ℕ) (items : List OrderItem)
    (p : Priced)
    → total ≤ max_int64
    → price_items menu currency total items ≡ ok (some p)
    → p.unavailable ≡ []
    → (p.total ≡ total + items_total p.items) × (p.total ≤ max_int64) × AreAsRequested items p.items
unfolding price_items
price_items-agrees menu currency total [] p fits h full = ground arith
price_items-agrees menu currency total (r ∷ rs) p fits h full =
    elim (Option-cases (map_get r.external_item_id menu)) [
      | inl missing ↦ elim (Result-cases (price_items menu currency total rs)) [
        | inr (e, failed) ↦ absurd (ground arith)
        | inl (none, rest) ↦ absurd (ground arith)
        | inl (some q, rest) ↦ absurd (ground arith)
      ]
      | inr (item, found) ↦ elim (Bool-cases (is_changed currency r item)) [
        | inl changed ↦ absurd (ground arith)
        | inr kept ↦ elim (Bool-cases (is_unavailable r item)) [
          | inl short ↦ elim (Result-cases (price_items menu currency total rs)) [
            | inr (e, failed) ↦ absurd (ground arith)
            | inl (none, rest) ↦ absurd (ground arith)
            | inl (some q, rest) ↦ absurd (ground arith)
          ]
          | inr there ↦
              elim (Result-cases
                (price_items menu item.currency (total + item.price_amount * r.quantity) rs)) [
                  | inr (e, failed) ↦ absurd (ground arith)
                  | inl (none, rest) ↦ absurd (ground arith)
                  | inl (some q, rest) ↦
                      let e : p ≡ record q { items = managed_item r item ∷ q.items } =
                        ground arith in
                      let small =
                        mul_checked max_int64 item.price_amount r.quantity (ground arith) in
                      let next =
                        price_items-agrees menu item.currency
                          (total + item.price_amount * r.quantity) rs q (ground arith) rest
                          (ground arith) in
                      rw e (ground (arith, next))
                ]
        ]
      ]
    ]
