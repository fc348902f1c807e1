-- ===== src/Platform/Checkout/Create.antt =====
-- `CreateOrder` of internal/platform/repository/orders.go, from the parts of `Checkout`.
use avito_kitchen.Base.{
  ℕ, ◌+◌, Bool, none, List, [], map, Text, ◌==◌, same, ltb, ◌||◌, length, select, exists_row,
  insert_row, some,
}
use avito_kitchen.Platform.Store.{
  OrderRow, OutboxRow, VenueRow, VenueOrderItem, VenueOrderCommand, order_command, Db, Env,
  RepoError, internal,
}
use avito_kitchen.Platform.Store
use avito_kitchen.Platform.Domain.{Order, OrderItem, CreateOrderCommand}
use avito_kitchen.Platform.Orders.{order_of_row, insert_order_history, has_job_id}
use avito_kitchen.Platform.Run.{Tx, run, new_uuid, transaction}
use avito_kitchen.Platform.Checkout.{
  has_key, find_idempotent_order, lock_checkout_venue, cast_ids, quantities, is_offered, scan_items,
  price_items, insert_items,
}
use avito_kitchen.Shared.Transaction.{Result, ok, refuse, guard, Outcome, ◌>>=◌, ◌>>◌}

-- From the venue to the priced items: nothing is written yet.
unfoldable pub price_request :
    Env → Db → CreateOrderCommand → Result RepoError (VenueRow × List OrderItem × ℕ)
unfolding lock_checkout_venue cast_ids quantities scan_items price_items
price_request env db command = do
  venue ← lock_checkout_venue env db command
  let requested = command.request.items
  run env Store.load_checkout_items
  ids ← cast_ids env requested
  let rows = select (is_offered venue.id ids) db.menu_items
  menu ← scan_items env venue.currency [] rows
  run env Store.iterate_checkout_items
  guard (length menu == length requested) Store.items_unavailable
  (items, amount) ← price_items menu (quantities [] requested) 0 requested
  refuse (ltb amount venue.minimum_order_amount) Store.minimum_order
  ok (venue, items, amount)

-- The row that `INSERT INTO orders` adds. Its `uuid` of the venue is the one that the server has
-- found the row of `venues` by.
abbrev pub row_of_command : Env → CreateOrderCommand → VenueRow → ℕ → OrderRow
row_of_command env command venue amount = record {
  id = command.order_id;
  customer_ref = command.request.customer_ref;
  venue_id = venue.id;
  external_order_id = none;
  status = Store.pending_confirmation;
  cancellation_status = Store.no_cancellation;
  rejection_reason = none;
  menu_version = command.request.menu_version;
  items_amount = amount;
  delivery_amount = 0;
  total_amount = amount;
  currency = venue.currency;
  delivery = command.request.delivery;
  idempotency_key = command.idempotency_key;
  request_hash = command.request_hash;
  tracking_token_hash = command.tracking_token_hash;
  venue_event_sequence = 0;
  confirmation_deadline = command.confirmation_deadline;
  created_at = env.now;
  updated_at = env.now;
}

-- The primary key of `orders`, and its unique keys `tracking_token_hash` and
-- `(customer_ref, idempotency_key)`.
abbrev pub is_taken : CreateOrderCommand → OrderRow → Bool
is_taken command r =
    same r.id command.order_id
    || same r.tracking_token_hash command.tracking_token_hash
    || has_key command.request.customer_ref command.idempotency_key r

abbrev pub venue_item : OrderItem → VenueOrderItem
venue_item item = record {
  external_item_id = item.external_item_id;
  name = item.name;
  quantity = item.quantity;
  expected_unit_price = item.unit_price;
}

-- The row of the `confirm_order` job.
abbrev pub confirm_job : Env → CreateOrderCommand → List OrderItem → Text → OutboxRow
confirm_job env command items id = record {
  id = id;
  aggregate_id = command.order_id;
  event_type = Store.confirm_order;
  payload = order_command (record {
    platform_order_id = command.order_id;
    menu_version = command.request.menu_version;
    items = map venue_item items;
  });
  attempts = 0;
  available_at = env.now;
  locked_until = none;
  lock_token = none;
  processed_at = none;
  last_error = none;
  created_at = env.now;
}

-- The four groups of inserts: the order, its items, its history and the job.
unfoldable pub insert_checkout :
    Env → CreateOrderCommand → VenueRow → List OrderItem → ℕ → Db → Tx Order
unfolding insert_items insert_order_history
insert_checkout env command venue items amount db = do
  run env Store.encode_delivery
  run env Store.insert_order
  refuse (exists_row (is_taken command) db.orders) (internal Store.insert_order)
  let row = row_of_command env command venue amount
  db₁ ←
      insert_items env command.order_id venue.currency 0 items
        (record db { orders = insert_row row db.orders })
  db₂ ←
      insert_order_history env (length items) Store.insert_order_history db₁ command.order_id
        Store.pending_confirmation Store.customer none env.now
  outbox_id ← new_uuid env (length items + 1)
  run env Store.encode_order_command
  run env Store.insert_order_outbox
  refuse (has_job_id outbox_id db₂) (internal Store.insert_order_outbox)
  ok (
    record (order_of_row row items) { venue_id = command.request.venue_id },
    record db₂ { outbox = insert_row (confirm_job env command items outbox_id) db₂.outbox },
  )

-- The body of the transaction. A repeat of a checkout returns the saved order.
unfoldable pub create_order_tx : Env → CreateOrderCommand → Db → Tx Order
unfolding find_idempotent_order price_request insert_checkout
create_order_tx env command db = do
  run env Store.lock_idempotency_scope
  existing ← find_idempotent_order env db command.request.customer_ref command.idempotency_key
  elim existing [
    | some (order, hash) ↦ do
      guard (same hash command.request_hash) Store.idempotency_key_reused
      ok (order, db)
    | none ↦ do
      (venue, items, amount) ← price_request env db command
      insert_checkout env command venue items amount db
  ]

-- `(*Repository).CreateOrder`.
unfoldable pub create_order : Env → CreateOrderCommand → Db → Outcome RepoError Order Db
unfolding create_order_tx transaction
create_order env command = transaction env (create_order_tx env command)
