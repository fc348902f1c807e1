-- ===== src/Venue/Decide/Apply.antt =====
-- The effects of `DecideOrder` of internal/venue/repository/orders.go: the stock, the order and its
-- items.
use avito_kitchen.Base.{
  ℕ, suc, ◌-◌, Bool, true, false, none, some, List, [], ◌∷◌, Text, ◌==◌, same, ◌&&◌, select,
  exists_row, update_where, insert_row,
}
use avito_kitchen.Venue.Store.{
  OrderItem, OrderCommand, OrderDecision, ManagedOrderItem, MenuItemRow, VenueOrderRow,
  VenueOrderItemRow, Db, Env, RepoError, internal,
}
use avito_kitchen.Venue.Store
use avito_kitchen.Venue.Decide.{
  find_decision, max_version, rejected_decision, accepted_decision, is_taken, insert_rejected,
  is_requested, menu_of_rows, Priced, is_short, price_items,
}
use avito_kitchen.Venue.Run.{Tx, run, new_uuid, cast_uuid, transaction}
use avito_kitchen.Shared.Transaction.{Result, ok, err, refuse, Outcome, ◌>>=◌, ◌>>◌}

-- `SET stock_quantity=stock_quantity-$2`, which `WHERE … stock_quantity IS NOT NULL` limits.
abbrev pub take_stock : ℕ → ℕ → MenuItemRow → MenuItemRow
take_stock now quantity r = elim r.stock_quantity [
  | none ↦ r
  | some n ↦ record r { stock_quantity = some (n - quantity); updated_at = now }
]

-- The update that would leave a negative stock, which the CHECK constraint refuses.
abbrev pub is_overdrawn : OrderItem → MenuItemRow → Bool
is_overdrawn item r =
    same r.external_id item.external_item_id && is_short item.quantity r.stock_quantity

abbrev pub is_item : OrderItem → MenuItemRow → Bool
is_item item r = same r.external_id item.external_item_id

-- The loop that reserves the stock.
unfoldable pub reserve_stock : Env → List OrderItem → Db → Result RepoError Db
reserve_stock env [] db = ok db
reserve_stock env (item ∷ items) db = do
  run env Store.reserve_venue_stock
  refuse (exists_row (is_overdrawn item) db.menu_items) (internal Store.reserve_venue_stock)
  reserve_stock env items (record db {
    menu_items = update_where (is_item item) (take_stock env.now item.quantity) db.menu_items;
  })

-- The row of an accepted order.
abbrev pub accepted_row : Env → OrderCommand → Text → Text → ℕ → Text → VenueOrderRow
accepted_row env command id platform_id total currency = record {
  id = id;
  platform_order_id = platform_id;
  menu_version = command.menu_version;
  decision_reason = none;
  status = Store.accepted;
  items_amount = some total;
  currency = some currency;
  decision_details = accepted_decision id total currency;
  next_event_sequence = 1;
  cancellation_decision = none;
  created_at = env.now;
  updated_at = env.now;
}

abbrev pub item_row : Text → Text → Text → ℕ → ManagedOrderItem → VenueOrderItemRow
item_row id order_id currency position item = record {
  id = id;
  venue_order_id = order_id;
  external_item_id = item.external_item_id;
  name = item.name;
  quantity = item.quantity;
  unit_price = item.unit_price;
  total_price = item.total_price;
  currency = currency;
  position = position;
}

abbrev pub add_item : VenueOrderItemRow → Db → Db
add_item row db = record db { order_items = insert_row row db.order_items }

-- `INSERT INTO venue_order_items` for each item, from `position` on.
unfoldable pub insert_items :
    Env → Text → Text → ℕ → List ManagedOrderItem → Db → Result RepoError Db
insert_items env order_id currency position [] db = ok db
insert_items env order_id currency position (item ∷ items) db = do
  id ← new_uuid env (suc position)
  run env Store.insert_venue_order_item
  refuse (item.quantity == 0) (internal Store.insert_venue_order_item)
  insert_items env order_id currency (suc position) items
      (add_item (item_row id order_id currency position item) db)

-- The inserts of an accepted order and its items.
unfoldable pub insert_accepted : Env → OrderCommand → Text → Priced → Text → Db → Tx OrderDecision
unfolding insert_items
insert_accepted env command platform_id priced id db = do
  run env Store.insert_accepted_order
  refuse (exists_row (is_taken id platform_id) db.orders) (internal Store.insert_accepted_order)
  db' ← insert_items env id priced.currency 0 priced.items (record db {
    orders =
        insert_row (accepted_row env command id platform_id priced.total priced.currency) db.orders;
  })
  ok (accepted_decision id priced.total priced.currency, db')

-- The end of `DecideOrder`, for an order whose items are all there.
unfoldable pub accept_order : Env → OrderCommand → Text → Priced → Db → Tx OrderDecision
unfolding reserve_stock insert_accepted
accept_order env command platform_id priced db = do
  reserved ← reserve_stock env command.items db
  id ← new_uuid env 0
  insert_accepted env command platform_id priced id reserved

abbrev pub is_empty : List Text → Bool
is_empty [] = true
is_empty (x ∷ xs) = false

-- The part of `DecideOrder` under the current menu version.
unfoldable pub decide_items : Env → OrderCommand → Text → ℕ → Db → Tx OrderDecision
unfolding menu_of_rows price_items insert_rejected accept_order
decide_items env command platform_id version db = do
  run env Store.lock_venue_menu_items
  run env Store.scan_venue_menu_item
  run env Store.iterate_venue_menu_items
  let menu = menu_of_rows [] (select (is_requested command.items) db.menu_items)
  priced ← price_items menu [] 0 command.items
  elim priced [
    | none ↦
        insert_rejected env command platform_id (rejected_decision Store.menu_changed version []) db
    | some p ↦ elim (is_empty p.unavailable) [
      | true ↦ accept_order env command platform_id p db
      | false ↦
          insert_rejected env command platform_id
            (rejected_decision Store.items_unavailable version p.unavailable) db
    ]
  ]

-- `DecideOrder` for an order that has no decision yet.
unfoldable pub decide_new : Env → OrderCommand → Text → Db → Tx OrderDecision
unfolding max_version insert_rejected decide_items
decide_new env command platform_id db = do
  run env Store.load_venue_availability
  run env Store.load_venue_menu_version
  version ← elim (max_version db.menu_versions) [
    | none ↦ err (internal Store.load_venue_menu_version)
    | some v ↦ ok v
  ]
  elim db.is_accepting_orders [
    | false ↦
        insert_rejected env command platform_id (rejected_decision Store.venue_closed version []) db
    | true ↦ elim (command.menu_version == version) [
      | false ↦
          insert_rejected env command platform_id (rejected_decision Store.menu_changed version [])
            db
      | true ↦ decide_items env command platform_id version db
    ]
  ]

unfoldable pub decide_order_tx : Env → OrderCommand → Db → Tx OrderDecision
unfolding find_decision decide_new
decide_order_tx env command db = do
  run env Store.lock_platform_order
  platform_id ← cast_uuid env command.platform_order_id
  existing ← find_decision env db platform_id
  elim existing [ some decision ↦ ok (decision, db) | none ↦ decide_new env command platform_id db ]

-- `(*Repository).DecideOrder`.
unfoldable pub decide_order : Env → OrderCommand → Db → Outcome RepoError OrderDecision Db
unfolding decide_order_tx transaction
decide_order env command = transaction env (decide_order_tx env command)
