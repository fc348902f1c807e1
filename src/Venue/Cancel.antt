-- ===== src/Venue/Cancel.antt =====
-- Cancelling an order at the venue: `CancelOrder` of internal/venue/repository/orders.go.
pub mod Once
pub mod Effects
use avito_kitchen.Base.{
  ℕ, ◌+◌, Bool, true, false, Option, none, some, List, [], ◌∷◌, Text, same, ◌&&◌, ◌==◌,
  if◌then◌else◌, find_row, update_where, insert_row,
}
use avito_kitchen.Venue.Store.{
  OrderStatus, CancellationDecision, MenuItemRow, VenueOrderRow, VenueOrderItemRow, Db, Env,
  RepoError,
}
use avito_kitchen.Venue.Store
use avito_kitchen.Venue.Decide.{is_for}
use avito_kitchen.Venue.Lifecycle.{has_id, callback_row}
use avito_kitchen.Venue.Run.{Tx, run, new_uuid, cast_uuid, transaction}
use avito_kitchen.Shared.Transaction.{Result, ok, err, Outcome, ◌>>=◌, ◌>>◌}

-- `venue_order_id=$1 AND ordered.external_item_id=item.external_id`.
abbrev pub is_ordered : Text → MenuItemRow → VenueOrderItemRow → Bool
is_ordered order_id item r =
    same r.venue_order_id order_id && same r.external_item_id item.external_id

-- `SET stock_quantity=item.stock_quantity+ordered.quantity … stock_quantity IS NOT NULL`.
abbrev pub give_back : ℕ → ℕ → MenuItemRow → MenuItemRow
give_back now quantity r = elim r.stock_quantity [
  | none ↦ r
  | some n ↦ record r { stock_quantity = some (n + quantity); updated_at = now }
]

-- `UPDATE venue_menu_items item … FROM venue_order_items ordered`: a row that joins changes once.
unfoldable pub release_stock :
    ℕ → Text → List VenueOrderItemRow → List MenuItemRow → List MenuItemRow
release_stock now order_id ordered [] = []
release_stock now order_id ordered (item ∷ items) =
    elim (find_row (is_ordered order_id item) ordered) [
      | none ↦ item
      | some r ↦ give_back now r.quantity item
    ]
    ∷ release_stock now order_id ordered items

abbrev pub refused : OrderStatus → CancellationDecision
refused status = record { is_cancelled = false; current_status = status }

abbrev pub confirmed : CancellationDecision
confirmed = record { is_cancelled = true; current_status = Store.cancelled }

-- `SET cancellation_decision=$2,updated_at=now()`.
abbrev pub decision_saved : ℕ → CancellationDecision → VenueOrderRow → VenueOrderRow
decision_saved now d r = record r { cancellation_decision = some d; updated_at = now }

-- `SET status='cancelled',next_event_sequence=next_event_sequence+1,…`.
abbrev pub cancelled_row : ℕ → VenueOrderRow → VenueOrderRow
cancelled_row now r = record r {
  status = Store.cancelled;
  next_event_sequence = r.next_event_sequence + 1;
  cancellation_decision = some confirmed;
  updated_at = now;
}

-- `CancelOrder` for an accepted order that has no saved decision.
unfoldable pub cancel_accepted : Env → VenueOrderRow → Db → Tx CancellationDecision
unfolding release_stock
cancel_accepted env row db = do
  run env Store.release_venue_stock
  event_id ← new_uuid env 0
  outbox_id ← new_uuid env 1
  run env Store.cancel_venue_order
  run env Store.insert_cancellation_callback
  ok (
    confirmed,
    record db {
      menu_items = release_stock env.now row.id db.order_items db.menu_items;
      orders = update_where (has_id row.id) (cancelled_row env.now) db.orders;
      outbox =
          insert_row
            (callback_row env outbox_id row.id event_id row.next_event_sequence
              Store.order_cancelled)
            db.outbox;
    },
  )

-- `status != "accepted"`: the refusal is saved.
unfoldable pub refuse_cancellation : Env → VenueOrderRow → Db → Tx CancellationDecision
refuse_cancellation env row db = do
  run env Store.save_cancellation_decision
  ok (
    refused row.status,
    record db {
      orders = update_where (has_id row.id) (decision_saved env.now (refused row.status)) db.orders;
    },
  )

unfoldable pub cancel_order_tx : Env → Text → Db → Tx CancellationDecision
unfolding cancel_accepted refuse_cancellation
cancel_order_tx env platform_order_id db = do
  run env Store.lock_venue_cancellation
  platform_id ← cast_uuid env platform_order_id
  row ← elim (find_row (is_for platform_id) db.orders) [
    | none ↦ err Store.order_not_found
    | some r ↦ ok r
  ]
  elim row.cancellation_decision [
    | some saved ↦ ok (saved, db)
    | none ↦ elim (Store.same_status row.status Store.accepted) [
      | false ↦ refuse_cancellation env row db
      | true ↦ cancel_accepted env row db
    ]
  ]

-- `(*Repository).CancelOrder`.
unfoldable pub cancel_order : Env → Text → Db → Outcome RepoError CancellationDecision Db
unfolding cancel_order_tx transaction
cancel_order env platform_order_id = transaction env (cancel_order_tx env platform_order_id)
