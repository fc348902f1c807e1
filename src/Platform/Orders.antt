-- ===== src/Platform/Orders.antt =====
-- Reading and cancelling an order: internal/platform/repository/orders.go without `CreateOrder`.
use avito_kitchen.Base.{
  ℕ, Bool, true, false, Option, none, some, List, [], ◌∷◌, map, Text, codes, ◌==◌, same, ◌&&◌,
  if◌then◌else◌, is_none, coalesce, select, find_row, update_where, exists_row, insert_row,
  order_by,
}
use avito_kitchen.Platform.Store.{
  OrderStatus, CancellationStatus, JobType, Source, OrderRow, OrderItemRow, HistoryRow, OutboxRow,
  Db, Env, Fault, RepoError,
}
use avito_kitchen.Platform.Store
use avito_kitchen.Platform.Domain.{Order, OrderItem}
use avito_kitchen.Platform.Run.{Tx, run, new_uuid, cast_uuid, transaction}
use avito_kitchen.Shared.Transaction.{Result, ok, err, refuse, Outcome, ◌>>=◌, ◌>>◌}

-- `NULLIF(text, '')`.
abbrev pub nullif_empty : Text → Option Text
nullif_empty [] = none
nullif_empty (c ∷ t) = some (c ∷ t)

abbrev pub item_of_row : OrderItemRow → OrderItem
item_of_row r = record {
  menu_item_id = r.menu_item_id;
  external_item_id = r.external_item_id;
  name = r.name;
  quantity = r.quantity;
  unit_price = r.unit_price;
  total_price = r.total_price;
}

-- `SELECT … FROM order_items WHERE order_id=$1 ORDER BY position`.
unfoldable pub load_items : Db → Text → List OrderItem
load_items db order_id =
    map item_of_row
      (order_by OrderItemRow.position (select (λ r. same r.order_id order_id) db.order_items))

-- What both reading queries scan from a row, the items beside it.
abbrev pub order_of_row : OrderRow → List OrderItem → Order
order_of_row r items = record {
  id = r.id;
  customer_ref = r.customer_ref;
  venue_id = r.venue_id;
  external_order_id = coalesce r.external_order_id [];
  status = r.status;
  cancellation_status = r.cancellation_status;
  rejection_reason = coalesce r.rejection_reason [];
  items = items;
  items_amount = r.items_amount;
  delivery_amount = r.delivery_amount;
  total_amount = r.total_amount;
  currency = r.currency;
  created_at = r.created_at;
  updated_at = r.updated_at;
}

-- `WHERE id=$1 AND tracking_token_hash=$2`.
abbrev pub has_access : Text → Text → OrderRow → Bool
has_access id token_hash r = same r.id id && same r.tracking_token_hash token_hash

-- `WHERE id=$1`.
abbrev pub has_id : Text → OrderRow → Bool
has_id id r = same r.id id

unfoldable pub get_order_by_access : Env → Db → Text → Text → Result RepoError Order
get_order_by_access env db order_id token_hash = do
  run env Store.get_order_by_access
  id ← cast_uuid env order_id
  row ← elim (find_row (has_access id token_hash) db.orders) [
    | none ↦ err Store.order_not_found
    | some r ↦ ok r
  ]
  run env Store.load_order_items
  ok (order_of_row row (load_items db row.id))

-- `(*Repository).GetOrder`.
unfoldable pub get_order : Env → Db → Text → Text → Result RepoError Order
unfolding get_order_by_access
get_order env db order_id token_hash = get_order_by_access env db order_id token_hash

-- The rows that `insertOrderHistory` and the statements like it add. `n` numbers the identifier.
unfoldable pub insert_order_history :
    Env → ℕ → Fault → Db → Text → OrderStatus → Source → Option Text → ℕ → Result RepoError Db
insert_order_history env n fault db order_id status source reason occurred_at = do
  history_id ← new_uuid env n
  run env fault
  ok (record db {
    order_status_history =
        insert_row
          (record {
            id = history_id;
            order_id = order_id;
            status = status;
            source = source;
            reason = reason;
            occurred_at = occurred_at;
          })
          db.order_status_history;
  })

-- `SET status='cancelled',cancellation_status='confirmed',updated_at=now()`.
abbrev pub cancelled_row : ℕ → OrderRow → OrderRow
cancelled_row now r = record r {
  status = Store.cancelled;
  cancellation_status = Store.confirmed;
  updated_at = now;
}

-- `SET cancellation_status=…,updated_at=now()`.
abbrev pub cancellation_row : CancellationStatus → ℕ → OrderRow → OrderRow
cancellation_row c now r = record r { cancellation_status = c; updated_at = now }

-- `SET processed_at=now(),last_error='cancelled before dispatch'`.
abbrev pub withdrawn_job : ℕ → OutboxRow → OutboxRow
withdrawn_job now r = record r {
  processed_at = some now;
  last_error = some (codes "cancelled before dispatch");
}

-- `WHERE aggregate_id=$1 AND event_type=… AND processed_at IS NULL`.
abbrev pub is_open_job : Text → JobType → OutboxRow → Bool
is_open_job order_id type r =
    same r.aggregate_id order_id && Store.same_job r.event_type type && is_none r.processed_at

-- The first claim has not been made: `attempts != 0 || !unlocked` refuses it.
abbrev pub is_undispatched : OutboxRow → Bool
is_undispatched r = r.attempts == 0 && is_none r.lock_token

-- The case `status == "pending_confirmation"` of `CancelOrder`. A failed query leaves `unlocked`
-- at `false`, and the guard on it comes before the test of `err`.
unfoldable pub cancel_pending : Env → Db → Text → Result RepoError Db
unfolding insert_order_history
cancel_pending env db id = do
  refuse (env.fails Store.lock_confirmation_cancellation) Store.order_cancellation_not_allowed
  job ← elim (find_row (is_open_job id Store.confirm_order) db.outbox) [
    | none ↦ err Store.order_cancellation_not_allowed
    | some r ↦ ok r
  ]
  refuse (if is_undispatched job then false else true) Store.order_cancellation_not_allowed
  run env Store.cancel_confirmation_job
  run env Store.cancel_pending_order
  insert_order_history env 0 Store.insert_order_history
      (record db {
        outbox =
            update_where (is_open_job id Store.confirm_order) (withdrawn_job env.now) db.outbox;
        orders = update_where (has_id id) (cancelled_row env.now) db.orders;
      })
      id Store.cancelled Store.customer (some (codes "cancelled before venue dispatch")) env.now

-- The primary key of `outbox` refuses an identifier that a row has.
abbrev pub has_job_id : Text → Db → Bool
has_job_id id db = exists_row (λ r. same r.id id) db.outbox

-- The row of the `cancel_order` job.
abbrev pub cancel_job : Env → Text → Text → OutboxRow
cancel_job env order_id id = record {
  id = id;
  aggregate_id = order_id;
  event_type = Store.cancel_order;
  payload = Store.empty_object;
  attempts = 0;
  available_at = env.now;
  locked_until = none;
  lock_token = none;
  processed_at = none;
  last_error = none;
  created_at = env.now;
}

-- The case `status == "accepted"` of `CancelOrder`.
unfoldable pub request_cancellation : Env → Db → Text → Result RepoError Db
request_cancellation env db id = do
  outbox_id ← new_uuid env 0
  run env Store.request_order_cancellation
  run env Store.insert_cancellation_outbox
  refuse (has_job_id outbox_id db) (Store.internal Store.insert_cancellation_outbox)
  ok (record db {
    orders = update_where (has_id id) (cancellation_row Store.requested env.now) db.orders;
    outbox = insert_row (cancel_job env id outbox_id) db.outbox;
  })

-- The `switch` of `CancelOrder`; the last clause is `default`.
unfoldable pub cancel_switch :
    OrderStatus → CancellationStatus → Env → Db → Text → Result RepoError Db
unfolding cancel_pending request_cancellation
cancel_switch Store.cancelled Store.confirmed env db id = ok db
cancel_switch _ Store.requested env db id = ok db
cancel_switch _ CancellationStatus.rejected env db id = ok db
cancel_switch Store.pending_confirmation _ env db id = cancel_pending env db id
cancel_switch Store.accepted Store.no_cancellation env db id = request_cancellation env db id
cancel_switch Store.accepted Store.failed env db id = request_cancellation env db id
cancel_switch _ _ env db id = err Store.order_cancellation_not_allowed

unfoldable pub cancel_order_tx : Env → Text → Text → Db → Tx Order
unfolding cancel_switch get_order_by_access
cancel_order_tx env order_id token_hash db = do
  run env Store.lock_order_cancellation
  id ← cast_uuid env order_id
  row ← elim (find_row (has_access id token_hash) db.orders) [
    | none ↦ err Store.order_not_found
    | some r ↦ ok r
  ]
  db' ← cancel_switch row.status row.cancellation_status env db id
  order ← get_order_by_access env db' order_id token_hash
  ok (order, db')

-- `(*Repository).CancelOrder`.
unfoldable pub cancel_order : Env → Text → Text → Db → Outcome RepoError Order Db
unfolding cancel_order_tx transaction
cancel_order env order_id token_hash = transaction env (cancel_order_tx env order_id token_hash)
