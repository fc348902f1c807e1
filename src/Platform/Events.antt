-- ===== src/Platform/Events.antt =====
-- Callbacks of the venue: internal/platform/repository/events.go.
pub mod Repeat
use avito_kitchen.Base.{
  ℕ, ◌+◌, Bool, Option, none, some, Text, ◌==◌, same, ◌&&◌, if◌then◌else◌, coalesce, find_row,
  update_where, insert_row,
}
use avito_kitchen.Platform.Store.{
  OrderStatus, CancellationStatus, EventType, OrderRow, OutboxRow, PartnerEventRow, Db, Env,
  RepoError,
}
use avito_kitchen.Platform.Store
use avito_kitchen.Platform.Domain.{OrderEvent}
use avito_kitchen.Platform.Orders.{has_id, insert_order_history, nullif_empty}
use avito_kitchen.Platform.Run.{Tx, run, cast_uuid, transaction}
use avito_kitchen.Shared.Transaction.{Result, ok, err, guard, Outcome, ◌>>=◌, ◌>>◌}

-- `eventTransition`; `none` is `("", false)`.
unfoldable pub event_transition : OrderStatus → EventType → Option OrderStatus
event_transition Store.accepted Store.order_preparing = some Store.preparing
event_transition Store.preparing Store.order_ready = some Store.ready
event_transition Store.ready Store.order_completed = some Store.completed
event_transition Store.accepted Store.order_cancelled = some Store.cancelled
event_transition Store.preparing Store.order_cancelled = some Store.cancelled
event_transition Store.cancelled Store.order_cancelled = some Store.cancelled
event_transition _ _ = none

-- `COALESCE($4::text,cancellation_status)`.
abbrev pub cancellation_after : EventType → CancellationStatus → CancellationStatus
cancellation_after Store.order_cancelled c = Store.confirmed
cancellation_after _ c = c

-- `SET status=$2,venue_event_sequence=$3,cancellation_status=…,updated_at=now()`.
abbrev pub event_applied : ℕ → OrderEvent → OrderStatus → OrderRow → OrderRow
event_applied now event target r = record r {
  status = target;
  venue_event_sequence = event.sequence;
  cancellation_status = cancellation_after event.type r.cancellation_status;
  updated_at = now;
}

-- `WHERE aggregate_id=$1 AND event_type='cancel_order'`.
abbrev pub is_cancel_job : Text → OutboxRow → Bool
is_cancel_job order_id r = same r.aggregate_id order_id && Store.is_cancel r.event_type

-- `SET processed_at=COALESCE(processed_at,now()),locked_until=NULL,lock_token=NULL`.
abbrev pub settled : ℕ → OutboxRow → OutboxRow
settled now r = record r {
  processed_at = some (coalesce r.processed_at now);
  locked_until = none;
  lock_token = none;
}

-- The update of `outbox` after an `order_cancelled` event, and none after any other.
unfoldable pub settle_cancellation : EventType → Env → Text → Db → Result RepoError Db
settle_cancellation Store.order_cancelled env order_id db = do
  run env Store.complete_cancellation_outbox
  ok (record db { outbox = update_where (is_cancel_job order_id) (settled env.now) db.outbox })
settle_cancellation _ env order_id db = ok db

-- What follows once the event is the next one and its transition is allowed.
unfoldable pub apply_event :
    Env → Text → OrderStatus → OrderStatus → OrderEvent → Db → Tx (Unit {0})
unfolding settle_cancellation insert_order_history
apply_event env id status target event db = do
  run env Store.insert_partner_order_event
  run env Store.apply_partner_order_event
  db₁ ← settle_cancellation event.type env id (record db {
    partner_order_events =
        insert_row
          (record {
            event_id = event.event_id;
            order_id = id;
            sequence = event.sequence;
            event_type = event.type;
            occurred_at = event.occurred_at;
          })
          db.partner_order_events;
    orders = update_where (has_id id) (event_applied env.now event target) db.orders;
  })
  if Store.same_status status target then ok (tt, db₁) else (do
    db₂ ←
        insert_order_history env 0 Store.insert_partner_event_history db₁ id target Store.venue
          (nullif_empty event.reason) event.occurred_at
    ok (tt, db₂))

-- A delivery whose identifier is known: the same event again, or another one.
abbrev pub repeat_of : Text → OrderEvent → PartnerEventRow → Bool
repeat_of order_id event r =
    same r.order_id order_id
    && r.sequence == event.sequence
    && Store.same_event r.event_type event.type

unfoldable pub record_order_event_tx : Env → Text → Text → OrderEvent → Db → Tx (Unit {0})
unfolding event_transition apply_event
record_order_event_tx env venue_id order_id event db = do
  run env Store.lock_platform_order_event
  id ← cast_uuid env order_id
  row ← elim (find_row (has_id id) db.orders) [ none ↦ err Store.order_not_found | some r ↦ ok r ]
  guard (same row.venue_id venue_id) Store.order_venue_mismatch
  run env Store.find_existing_order_event
  event_id ← cast_uuid env event.event_id
  elim (find_row (λ (r : PartnerEventRow). same r.event_id event_id) db.partner_order_events) [
    | some r ↦ if repeat_of order_id event r then ok (tt, db) else err Store.event_conflict
    | none ↦ do
      guard (event.sequence == row.venue_event_sequence + 1) Store.event_sequence_conflict
      target ← elim (event_transition row.status event.type) [
        | none ↦ err Store.invalid_order_transition
        | some s ↦ ok s
      ]
      apply_event env id row.status target (record event { event_id = event_id }) db
  ]

-- `(*Repository).RecordOrderEvent`.
unfoldable pub record_order_event :
    Env → Text → Text → OrderEvent → Db → Outcome RepoError (Unit {0}) Db
unfolding record_order_event_tx transaction
record_order_event env venue_id order_id event =
    transaction env (record_order_event_tx env venue_id order_id event)
