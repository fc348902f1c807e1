-- ===== src/Platform/Checkout.antt =====
-- Checkout: `CreateOrder` of internal/platform/repository/orders.go, its loops as functions.
pub mod Create
pub mod Saved
pub mod Repeat
pub mod Totals
use avito_kitchen.Base.{
  ℕ, suc, ◌+◌, ◌*◌, ◌-◌, ◌/◌, Bool, Option, none, some, List, [], ◌∷◌, Text, ◌==◌, same, ltb, ◌&&◌,
  coalesce, find_row, exists_row, insert_row, map_get, map_set,
}
use avito_kitchen.Platform.Store.{
  OrderItemRow, MenuItemRow, OrderRow, VenueRow, Db, Env, RepoError, internal,
}
use avito_kitchen.Platform.Store
use avito_kitchen.Platform.Domain.{Order, OrderItem, OrderItemRequest, CreateOrderCommand}
use avito_kitchen.Platform.Orders.{load_items, order_of_row}
use avito_kitchen.Platform.Run.{run, new_uuid, cast_uuid}
use avito_kitchen.Shared.Transaction.{Result, ok, err, refuse, guard, ◌>>=◌, ◌>>◌}

-- `math.MaxInt64`.
abbrev pub max_int64 : ℕ
max_int64 = 9223372036854775807

-- `WHERE customer_ref=$1 AND idempotency_key=$2`.
abbrev pub has_key : Text → Text → OrderRow → Bool
has_key customer_ref key r = same r.customer_ref customer_ref && same r.idempotency_key key

-- `findIdempotentOrder`; `none` is `pgx.ErrNoRows`.
unfoldable pub find_idempotent_order :
    Env → Db → Text → Text → Result RepoError (Option (Order × Text))
find_idempotent_order env db customer_ref key = do
  run env Store.find_idempotent_order
  elim (find_row (has_key customer_ref key) db.orders) [
    | none ↦ ok none
    | some r ↦ do
      run env Store.load_existing_items
      ok (some (order_of_row r (load_items db r.id), r.request_hash))
  ]

-- The row of `venues`, and the three guards on it.
unfoldable pub lock_checkout_venue : Env → Db → CreateOrderCommand → Result RepoError VenueRow
lock_checkout_venue env db command = do
  run env Store.lock_checkout_venue
  venue_id ← cast_uuid env command.request.venue_id
  v ← elim (find_row (λ (v : VenueRow). same v.id venue_id) db.venues) [
    | none ↦ err Store.venue_not_found
    | some v ↦ ok v
  ]
  guard v.is_accepting_orders Store.venue_closed
  version ← elim v.menu_version [ none ↦ err Store.menu_changed | some n ↦ ok n ]
  guard (version == command.request.menu_version) Store.menu_changed
  ok v

-- The loop over `requestedIDs`, read by the query as `uuid[]`.
unfoldable pub cast_ids : Env → List OrderItemRequest → Result RepoError (List Text)
cast_ids env [] = ok []
cast_ids env (r ∷ rs) = do id ← cast_uuid env r.menu_item_id; ids ← cast_ids env rs; ok (id ∷ ids)

-- The loop that fills the map `quantities`.
unfoldable pub quantities : List (Text × ℕ) → List OrderItemRequest → List (Text × ℕ)
quantities m [] = m
quantities m (r ∷ rs) = quantities (map_set r.menu_item_id r.quantity m) rs

-- `venue_id=$1 AND id=ANY($2::uuid[]) AND is_active AND is_available`.
abbrev pub is_offered : Text → List Text → MenuItemRow → Bool
is_offered venue_id ids r =
    same r.venue_id venue_id && exists_row (same r.id) ids && r.is_active && r.is_available

-- What a row of the menu gives to an order item.
abbrev pub item_of_menu : MenuItemRow → OrderItem
item_of_menu r = record {
  menu_item_id = r.id;
  external_item_id = r.external_id;
  name = r.name;
  quantity = 0;
  unit_price = r.price_amount;
  total_price = 0;
}

-- The loop over `rows` that fills the map `menuItems`.
unfoldable pub scan_items :
    Env
    → Text
    → List (Text × OrderItem)
    → List MenuItemRow
    → Result RepoError (List (Text × OrderItem))
scan_items env currency m [] = ok m
scan_items env currency m (r ∷ rs) = do
  run env Store.scan_checkout_item
  guard (same r.currency currency) Store.menu_changed
  scan_items env currency (map_set r.id (item_of_menu r) m) rs

-- The zero value of `domain.OrderItem`, which a missing key of the map reads as.
abbrev pub zero_item : OrderItem
zero_item = record {
  menu_item_id = [];
  external_item_id = [];
  name = [];
  quantity = 0;
  unit_price = 0;
  total_price = 0;
}

-- One round of the loop that prices the request: the item with its quantity and total.
abbrev pub priced : List (Text × OrderItem) → List (Text × ℕ) → Text → OrderItem
priced menu counts id =
    let item = coalesce (map_get id menu) zero_item in
    let quantity = coalesce (map_get item.menu_item_id counts) 0 in
    record item { quantity = quantity; total_price = item.unit_price * quantity }

-- That loop: the items of the order and `itemsAmount`, which starts at `amount`.
unfoldable pub price_items :
    List (Text × OrderItem)
    → List (Text × ℕ)
    → ℕ
    → List OrderItemRequest
    → Result RepoError (List OrderItem × ℕ)
price_items menu counts amount [] = ok ([], amount)
price_items menu counts amount (r ∷ rs) =
    let item = priced menu counts r.menu_item_id in
    do
      refuse (ltb 0 item.unit_price && ltb (max_int64 / item.unit_price) item.quantity)
          Store.amount_overflow
      refuse (ltb (max_int64 - item.total_price) amount) Store.amount_overflow
      (items, sum) ← price_items menu counts (amount + item.total_price) rs
      ok (item ∷ items, sum)

abbrev pub item_row : Text → Text → Text → Text → ℕ → OrderItem → OrderItemRow
item_row id order_id menu_item_id currency position item = record {
  id = id;
  order_id = order_id;
  menu_item_id = menu_item_id;
  external_item_id = item.external_item_id;
  name = item.name;
  quantity = item.quantity;
  unit_price = item.unit_price;
  total_price = item.total_price;
  currency = currency;
  position = position;
}

abbrev pub add_item : OrderItemRow → Db → Db
add_item row db = record db { order_items = insert_row row db.order_items }

-- `INSERT INTO order_items` for each item, from `position` on. The server refuses a text that is
-- no `uuid`, and the CHECK constraint a quantity of 0.
unfoldable pub insert_items : Env → Text → Text → ℕ → List OrderItem → Db → Result RepoError Db
insert_items env order_id currency position [] db = ok db
insert_items env order_id currency position (item ∷ items) db = do
  item_id ← new_uuid env position
  run env Store.insert_order_item
  menu_item_id ← cast_uuid env item.menu_item_id
  refuse (item.quantity == 0) (internal Store.insert_order_item)
  insert_items env order_id currency (suc position) items
      (add_item (item_row item_id order_id menu_item_id currency position item) db)
