-- ===== src/Platform/Consistency/Recording.antt =====
-- Orders and jobs under `RecordOrderEvent` of internal/platform/repository/events.go.
use avito_kitchen.Base.{
  ℕ, ◌+◌, ◌≡◌, refl, sym, some, List, Text, same, if◌then◌else◌, find_row, update_where, arith,
  Option-cases, inl, inr, subst,
}
use avito_kitchen.Platform.Store.{
  OrderStatus, EventType, JobType, OrderRow, OutboxRow, PartnerEventRow, Db, Env,
}
use avito_kitchen.Platform.Store
use avito_kitchen.Platform.Domain.{OrderEvent}
use avito_kitchen.Platform.Orders.{has_id}
use avito_kitchen.Platform.Events.{
  event_transition, event_applied, is_cancel_job, settled, apply_event, record_order_event_tx,
  record_order_event,
}
use avito_kitchen.Platform.Consistency.{
  IsConsistent, open_jobs, transaction_keeps, update_id-IsConsistent, open_jobs-close,
}
use avito_kitchen.Shared.Transaction.{ok}

-- The jobs after an event: a cancellation settles those of its kind.
abbrev pub settled_jobs : EventType → ℕ → Text → List OutboxRow → List OutboxRow
settled_jobs Store.order_cancelled now id = update_where (is_cancel_job id) (settled now)
settled_jobs _ now id = λ xs. xs

pub apply_event-tables :
    (env : Env) (id : Text) (status target : OrderStatus) (event : OrderEvent) (db : Db) {db' : Db}
    → apply_event env id status target event db ≡ ok (tt, db')
    → (db'.orders ≡ update_where (has_id id) (event_applied env.now event target) db.orders)
      × (db'.outbox ≡ settled_jobs event.type env.now id db.outbox)
unfolding apply_event
apply_event-tables env id status target event db h = ground arith

open_jobs-settled :
    (kind : EventType) (now : ℕ) (order_id : Text) (type : JobType) (id : Text)
    (xs : List OutboxRow)
    → open_jobs type id (settled_jobs kind now order_id xs) ≡ (
        if Store.same_event kind Store.order_cancelled
        then (if same order_id id
            then (if Store.is_cancel type then 0 else open_jobs type id xs)
            else open_jobs type id xs)
        else open_jobs type id xs)
open_jobs-settled Store.order_cancelled now order_id type id xs = ground (
  arith,
  open_jobs-close (is_cancel_job order_id) (settled now) order_id Store.cancel_order (λ r. refl)
      (λ r h. ground arith) (λ r h. ground arith) type id xs,
)
open_jobs-settled _ now order_id type id xs = refl

module _ (env : Env) (id : Text) (event : OrderEvent) {db : Db} (c : IsConsistent db) {o : OrderRow}
    (found : find_row (has_id id) db.orders ≡ some o) where
  apply_event-IsConsistent :
      (target : OrderStatus)
      → event_transition o.status event.type ≡ some target
      → {db' : Db} → apply_event env id o.status target event db ≡ ok (tt, db')
      → IsConsistent db'
  unfolding event_transition
  apply_event-IsConsistent target moves {db'} h =
      let (e, f) = apply_event-tables env id o.status target event db h in
      update_id-IsConsistent c id (event_applied env.now event target) (λ r. refl) e
        (ground (arith, c.sound id))
        λ type j. rw f (
          ground (
            arith,
            open_jobs-settled event.type env.now id type j db.outbox,
            c.jobs j type,
            c.sound id,
          ))

-- A delivery that succeeds is a repeat, which changes nothing, or the next event of its order.
pub data Delivery (env : Env) (venue_id order_id : Text) (event : OrderEvent) (db db' : Db)
    : Type 0 where
  repeated : db' ≡ db → Delivery env venue_id order_id event db db'
  applied :
      (id event_id : Text) (row : OrderRow) (target : OrderStatus)
      → env.uuid_in order_id ≡ some id
      → find_row (has_id id) db.orders ≡ some row
      → row.venue_id ≡ venue_id
      → event.sequence ≡ row.venue_event_sequence + 1
      → event_transition row.status event.type ≡ some target
      → apply_event env id row.status target (record event { event_id = event_id }) db
        ≡ ok (tt, db')
      → Delivery env venue_id order_id event db db'

pub record_order_event_tx-Delivery :
    (env : Env) (venue_id order_id : Text) (event : OrderEvent) (db db' : Db)
    → record_order_event_tx env venue_id order_id event db ≡ ok (tt, db')
    → Delivery env venue_id order_id event db db'
unfolding record_order_event_tx
record_order_event_tx-Delivery env venue_id order_id event db db' h =
    elim (Option-cases (env.uuid_in order_id)) [
      | inl bad ↦ absurd (ground arith)
      | inr (id, e) ↦ elim (Option-cases (find_row (has_id id) db.orders)) [
        | inl missing ↦ absurd (ground arith)
        | inr (row, found) ↦ elim (Option-cases (env.uuid_in event.event_id)) [
          | inl bad ↦ absurd (ground arith)
          | inr (event_id, g) ↦
              elim (Option-cases (
                find_row (λ (r : PartnerEventRow). same r.event_id event_id)
                  db.partner_order_events)) [
                    | inr (old, known) ↦ repeated (ground arith)
                    | inl new ↦ elim (Option-cases (event_transition row.status event.type)) [
                      | inl refused ↦ absurd (ground arith)
                      | inr (target, moves) ↦
                          applied id event_id row target e found (ground arith) (ground arith) moves
                            (ground arith)
                    ]
                  ]
        ]
      ]
    ]

record_order_event_tx-IsConsistent :
    (env : Env) (venue_id order_id : Text) (event : OrderEvent) {db db' : Db}
    → IsConsistent db
    → Delivery env venue_id order_id event db db'
    → IsConsistent db'
record_order_event_tx-IsConsistent env venue_id order_id event c (repeated e) =
    subst IsConsistent (sym e) c
record_order_event_tx-IsConsistent env venue_id order_id event c
      (applied id event_id row target _ found _ _ moves h) =
    apply_event-IsConsistent env id (record event { event_id = event_id }) c found target moves h

-- A callback of the venue keeps the agreement of orders and jobs, whatever its outcome.
pub record_order_event-IsConsistent :
    (env : Env) (venue_id order_id : Text) (event : OrderEvent) (db : Db)
    → IsConsistent db
    → IsConsistent (record_order_event env venue_id order_id event db).db
unfolding record_order_event
record_order_event-IsConsistent env venue_id order_id event db c =
    transaction_keeps IsConsistent env (record_order_event_tx env venue_id order_id event) db c
      λ a db' h.
        record_order_event_tx-IsConsistent env venue_id order_id event c
          (record_order_event_tx-Delivery env venue_id order_id event db db' h)
