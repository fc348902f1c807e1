-- ===== src/Platform/Checkout/Totals.antt =====
-- What a checkout comes to: the loop of `CreateOrder` that prices the request.
use avito_kitchen.Base.{
  ℕ, ◌+◌, ◌*◌, ◌≤◌, ◌≡◌, refl, false, some, List, [], ◌∷◌, Text, same, exists_row, All, map_get,
  map_set, map_get-map_set, arith, inl, inr, mul_checked,
}
use avito_kitchen.Platform.Domain.{OrderItem, OrderItemRequest}
use avito_kitchen.Platform.Checkout.{price_items, priced, quantities, max_int64}
use avito_kitchen.Shared.Transaction.{ok, Result-cases}

-- The sum of price times quantity over the items.
abbrev pub items_total : List OrderItem → ℕ
items_total [] = 0
items_total (i ∷ is) = i.unit_price * i.quantity + items_total is

-- No two requests are for the same item.
abbrev pub AreDistinct : List OrderItemRequest → Type 0
AreDistinct [] = Unit
AreDistinct (r ∷ rs) =
    (exists_row (λ (s : OrderItemRequest). same s.menu_item_id r.menu_item_id) rs ≡ false)
    × AreDistinct rs

-- What the menu that was read offers under the identifier of a request.
abbrev pub IsOffered : List (Text × OrderItem) → OrderItemRequest → OrderItem → Type 0
IsOffered menu r m = (map_get r.menu_item_id menu ≡ some m) × (m.menu_item_id ≡ r.menu_item_id)

-- An item of the order: what the menu says of the requested one, in the requested quantity.
pub record IsOrdered (menu : List (Text × OrderItem)) (r : OrderItemRequest) (i : OrderItem)
    : Type 0 where
  pub offer : OrderItem
  pub offered : IsOffered menu r offer
  pub menu_item_id : i.menu_item_id ≡ r.menu_item_id
  pub external_item_id : i.external_item_id ≡ offer.external_item_id
  pub name : i.name ≡ offer.name
  pub unit_price : i.unit_price ≡ offer.unit_price
  pub quantity : i.quantity ≡ r.quantity
  pub total_price : i.total_price ≡ offer.unit_price * r.quantity

-- Each request has its item, in the same order.
abbrev pub AreOrdered : List (Text × OrderItem) → List OrderItemRequest → List OrderItem → Type 0
AreOrdered menu [] [] = Unit
AreOrdered menu (r ∷ rs) (i ∷ is) = IsOrdered menu r i × AreOrdered menu rs is
AreOrdered menu _ _ = ⊥

-- A quantity that the loop over the requests does not set again stands.
quantities-absent :
    (id : Text) (m : List (Text × ℕ)) (rs : List OrderItemRequest)
    → exists_row (λ (s : OrderItemRequest). same s.menu_item_id id) rs ≡ false
    → map_get id (quantities m rs) ≡ map_get id m
unfolding quantities
quantities-absent id m [] absent = refl
quantities-absent id m (r ∷ rs) absent = ground (
  arith,
  quantities-absent id (map_set r.menu_item_id r.quantity m) rs,
  map_get-map_set r.menu_item_id id r.quantity m,
)

-- The map of the quantities holds the one of each request.
quantities-All :
    (m : List (Text × ℕ)) (rs : List OrderItemRequest)
    → AreDistinct rs
    → All (λ (r : OrderItemRequest). map_get r.menu_item_id (quantities m rs) ≡ some r.quantity) rs
unfolding quantities
quantities-All m [] distinct = tt
quantities-All m (r ∷ rs) (alone, distinct) =
    let m' = map_set r.menu_item_id r.quantity m in
    (
      ground (
        arith,
        quantities-absent r.menu_item_id m' rs alone,
        map_get-map_set r.menu_item_id r.menu_item_id r.quantity m,
      ),
      quantities-All m' rs distinct,
    )

priced-IsOrdered :
    (menu : List (Text × OrderItem)) (counts : List (Text × ℕ)) (r : OrderItemRequest)
    (m : OrderItem)
    → IsOffered menu r m
    → map_get r.menu_item_id counts ≡ some r.quantity
    → IsOrdered menu r (priced menu counts r.menu_item_id)
priced-IsOrdered menu counts r m (found, own) counted = record {
  offer = m;
  offered = (found, own);
  menu_item_id = ground arith;
  external_item_id = ground arith;
  name = ground arith;
  unit_price = ground arith;
  quantity = ground arith;
  total_price = ground arith;
}

price_items-AreOrdered :
    (menu : List (Text × OrderItem)) (counts : List (Text × ℕ)) (amount : ℕ)
    (requested : List OrderItemRequest) (items : List OrderItem) (sum : ℕ)
    → amount ≤ max_int64
    → All (λ (r : OrderItemRequest). (m : OrderItem) × IsOffered menu r m) requested
    → All (λ (r : OrderItemRequest). map_get r.menu_item_id counts ≡ some r.quantity) requested
    → price_items menu counts amount requested ≡ ok (items, sum)
    → (sum ≡ amount + items_total items) × (sum ≤ max_int64) × AreOrdered menu requested items
unfolding price_items
price_items-AreOrdered menu counts amount [] items sum fits offered counted h = ground arith
price_items-AreOrdered menu counts amount (r ∷ rs) items sum fits offered counted h =
    let item = priced menu counts r.menu_item_id in
    elim (Result-cases (price_items menu counts (amount + item.total_price) rs)) [
      | inr (e, failed) ↦ absurd (ground arith)
      | inl ((rest, total), priced_rest) ↦
          let small = mul_checked max_int64 item.unit_price item.quantity (ground arith) in
          let (a, b, c) =
            price_items-AreOrdered menu counts (amount + item.total_price) rs rest total
              (ground arith) offered.1 counted.1 priced_rest in
          let one = priced-IsOrdered menu counts r offered.0.0 offered.0.1 counted.0 in
          let e : items ≡ item ∷ rest = ground arith in
          let f : sum ≡ total = ground arith in rw (e, f) (ground arith, b, (one, c))
    ]

-- Where no two requests are for the same item, and the menu that was read has each one under the
-- identifier of the request, the loop that prices a checkout by the quantities of these requests,
-- when it succeeds, gives one item for each request, in their order: the item of the menu, at its
-- price, in the requested quantity, for price times quantity; and an amount that is the sum of
-- price times quantity over these items and fits in 64 bits.
pub price_items-fits :
    (menu : List (Text × OrderItem)) (requested : List OrderItemRequest) (items : List OrderItem)
    (sum : ℕ)
    → AreDistinct requested
    → All (λ (r : OrderItemRequest). (m : OrderItem) × IsOffered menu r m) requested
    → price_items menu (quantities [] requested) 0 requested ≡ ok (items, sum)
    → (sum ≡ items_total items) × (sum ≤ max_int64) × AreOrdered menu requested items
price_items-fits menu requested items sum distinct offered h =
    let (a, b, c) =
      price_items-AreOrdered menu (quantities [] requested) 0 requested items sum (omega arith)
        offered (quantities-All [] requested distinct) h in
    (omega (arith, a), b, c)
