-- ===== src/Venue/Lifecycle.antt =====
-- An order after its decision: `ListOrders`, `GetOrder` and the transitions of
-- internal/venue/repository/orders.go.
pub mod Events
use avito_kitchen.Base.{
  ℕ, suc, ◌+◌, ◌-◌, Bool, true, false, Option, none, some, List, [], ◌∷◌, map, Text, codes, ◌==◌,
  same, ◌&&◌, if◌then◌else◌, coalesce, find_row, select, exists_row, update_where, insert_row,
  order_by, take,
}
use avito_kitchen.Venue.Store.{
  OrderStatus, EventType, OrderEvent, ManagedOrder, ManagedOrderItem, CancellationDecision,
  MenuItemRow, VenueOrderRow, VenueOrderItemRow, VenueOutboxRow, Db, Env, Fault, RepoError,
  internal,
}
use avito_kitchen.Venue.Store
use avito_kitchen.Venue.Run.{Tx, run, new_uuid, cast_uuid, transaction}
use avito_kitchen.Shared.Transaction.{Result, ok, err, refuse, guard, Outcome, ◌>>=◌, ◌>>◌}

abbrev pub has_id : Text → VenueOrderRow → Bool
has_id id r = same r.id id

abbrev pub item_of_row : VenueOrderItemRow → ManagedOrderItem
item_of_row r = record {
  external_item_id = r.external_item_id;
  name = r.name;
  quantity = r.quantity;
  unit_price = r.unit_price;
  total_price = r.total_price;
}

-- `loadManagedItems`.
unfoldable pub load_managed_items : Env → Db → Text → Result RepoError (List ManagedOrderItem)
load_managed_items env db order_id = do
  run env Store.load_venue_order_items
  ok (
      map item_of_row (
        order_by VenueOrderItemRow.position
          (select (λ r. same r.venue_order_id order_id) db.order_items)))

-- `COALESCE(items_amount,0),COALESCE(currency,'RUB')` and the rest of a scanned row.
abbrev pub order_of_row : VenueOrderRow → List ManagedOrderItem → ManagedOrder
order_of_row r items = record {
  id = r.id;
  platform_order_id = r.platform_order_id;
  status = r.status;
  items = items;
  items_amount = coalesce r.items_amount 0;
  currency = coalesce r.currency (codes "RUB");
  created_at = r.created_at;
  updated_at = r.updated_at;
}

-- The loop of `ListOrders` over its rows.
unfoldable pub scan_orders : Env → Db → List VenueOrderRow → Result RepoError (List ManagedOrder)
unfolding load_managed_items
scan_orders env db [] = ok []
scan_orders env db (r ∷ rs) = do
  items ← load_managed_items env db r.id
  orders ← scan_orders env db rs
  ok (order_of_row r items ∷ orders)

-- The place of a row in `ORDER BY created_at DESC`: a later time comes first.
abbrev pub newest_first : ℕ → VenueOrderRow → ℕ
newest_first now r = now - r.created_at

-- `(*Repository).ListOrders`, over rows that were all created by `now`.
unfoldable pub list_orders : Env → Db → Result RepoError (List ManagedOrder)
unfolding scan_orders
list_orders env db = do
  run env Store.list_venue_orders
  scan_orders env db (take 100 (order_by (newest_first env.now) db.orders))

-- `(*Repository).GetOrder`.
unfoldable pub get_order : Env → Db → Text → Result RepoError ManagedOrder
unfolding load_managed_items
get_order env db order_id = do
  run env Store.get_venue_order
  id ← cast_uuid env order_id
  row ← elim (find_row (has_id id) db.orders) [ none ↦ err Store.order_not_found | some r ↦ ok r ]
  items ← load_managed_items env db row.id
  ok (order_of_row row items)

-- The event that a transition adds to `venue_outbox`.
abbrev pub callback_row : Env → Text → Text → Text → ℕ → EventType → VenueOutboxRow
callback_row env id order_id event_id sequence type = record {
  id = id;
  venue_order_id = order_id;
  event_id = event_id;
  sequence = sequence;
  event_type = type;
  payload = record { event_id = event_id; sequence = sequence; type = type; occurred_at = env.now };
  attempts = 0;
  available_at = env.now;
  locked_until = none;
  lock_token = none;
  processed_at = none;
  last_error = none;
  created_at = env.now;
}

-- `SET status=$2,next_event_sequence=next_event_sequence+1,updated_at=now()`.
abbrev pub advanced_row : ℕ → OrderStatus → VenueOrderRow → VenueOrderRow
advanced_row now target r = record r {
  status = target;
  next_event_sequence = r.next_event_sequence + 1;
  updated_at = now;
}

-- `transitionOrder` from the update of the status on.
unfoldable pub advance : Env → VenueOrderRow → OrderStatus → EventType → Db → Tx ManagedOrder
unfolding load_managed_items
advance env row target type db = do
  event_id ← new_uuid env 0
  outbox_id ← new_uuid env 1
  run env Store.update_venue_order_status
  run env Store.insert_venue_callback_event
  let db' = record db {
    orders = update_where (has_id row.id) (advanced_row env.now target) db.orders;
    outbox =
        insert_row (callback_row env outbox_id row.id event_id row.next_event_sequence type)
          db.outbox;
  }
  items ← load_managed_items env db' row.id
  ok (order_of_row (record row { status = target; updated_at = env.now }) items, db')

unfoldable pub transition_order_tx :
    Env → Text → OrderStatus → OrderStatus → EventType → Db → Tx ManagedOrder
unfolding advance load_managed_items
transition_order_tx env order_id expected target type db = do
  run env Store.lock_venue_order_transition
  id ← cast_uuid env order_id
  row ← elim (find_row (has_id id) db.orders) [ none ↦ err Store.order_not_found | some r ↦ ok r ]
  elim (Store.same_status row.status target) [
    | true ↦ do items ← load_managed_items env db row.id; ok (order_of_row row items, db)
    | false ↦ do
      guard (Store.same_status row.status expected) Store.invalid_order_transition
      advance env row target type db
  ]

-- `transitionOrder`.
unfoldable pub transition_order :
    Env → Text → OrderStatus → OrderStatus → EventType → Db → Outcome RepoError ManagedOrder Db
unfolding transition_order_tx transaction
transition_order env order_id expected target type =
    transaction env (transition_order_tx env order_id expected target type)

-- `StartPreparing`, `MarkReady` and `Complete`.
unfoldable pub start_preparing : Env → Text → Db → Outcome RepoError ManagedOrder Db
unfolding transition_order
start_preparing env order_id =
    transition_order env order_id Store.accepted Store.preparing Store.order_preparing

unfoldable pub mark_ready : Env → Text → Db → Outcome RepoError ManagedOrder Db
unfolding transition_order
mark_ready env order_id =
    transition_order env order_id Store.preparing Store.ready Store.order_ready

unfoldable pub complete : Env → Text → Db → Outcome RepoError ManagedOrder Db
unfolding transition_order
complete env order_id =
    transition_order env order_id Store.ready Store.completed Store.order_completed
