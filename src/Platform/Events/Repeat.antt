-- ===== src/Platform/Events/Repeat.antt =====
-- A delivery of an event that is repeated: `RecordOrderEvent` of
-- internal/platform/repository/events.go, twice.
use avito_kitchen.Base.{
  ◌≡◌, refl, Bool, true, false, none, some, List, [], ◌∷◌, Text, same, same_refl, find_row,
  insert_row, arith, Option-cases, inl, inr,
}
use avito_kitchen.Platform.Store.{OrderStatus, OrderRow, PartnerEventRow, Db, Env, Fault}
use avito_kitchen.Platform.Store
use avito_kitchen.Platform.Domain.{OrderEvent}
use avito_kitchen.Platform.Orders.{has_id, insert_order_history}
use avito_kitchen.Platform.Events.{
  event_transition, event_applied, settle_cancellation, apply_event, repeat_of,
  record_order_event_tx, record_order_event,
}
use avito_kitchen.Platform.Consistency.{seen, seen-update_id}
use avito_kitchen.Platform.Consistency.Recording.{apply_event-tables}
use avito_kitchen.Platform.Run.{transaction-ok, transaction-commits}
use avito_kitchen.Shared.Transaction.{ok}

abbrev is_event : Text → PartnerEventRow → Bool
is_event id r = same r.event_id id

-- The event is in the table, for its order.
abbrev is_known : Text → Text → OrderEvent → Db → Bool
is_known event_id order_id event db = elim (find_row (is_event event_id) db.partner_order_events) [
  | none ↦ false
  | some r ↦ repeat_of order_id event r
]

abbrev is_of_venue : Text → Text → Db → Bool
is_of_venue venue_id id db = seen (λ o. same o.venue_id venue_id) false id db.orders

abbrev event_row : Text → OrderEvent → PartnerEventRow
event_row id event = record {
  event_id = event.event_id;
  order_id = id;
  sequence = event.sequence;
  event_type = event.type;
  occurred_at = event.occurred_at;
}

apply_event-events :
    (env : Env) (id : Text) (status target : OrderStatus) (event : OrderEvent) (db : Db) {db' : Db}
    → apply_event env id status target event db ≡ ok (tt, db')
    → db'.partner_order_events ≡ insert_row (event_row id event) db.partner_order_events
unfolding apply_event settle_cancellation insert_order_history
apply_event-events env id status target event db h = ground arith

find_row-inserted :
    (p : PartnerEventRow → Bool) (r : PartnerEventRow) (rs : List PartnerEventRow)
    → find_row p rs ≡ none
    → p r ≡ true
    → find_row p (insert_row r rs) ≡ some r
find_row-inserted p r [] h k = ground arith
find_row-inserted p r (x ∷ xs) h k = ground (arith, find_row-inserted p r xs)

-- An event that is applied is known then, and its order is still of the venue.
apply_event-is_known :
    (env : Env) (venue_id id : Text) (status target : OrderStatus) (event : OrderEvent) (db : Db)
    {db' : Db}
    → apply_event env id status target event db ≡ ok (tt, db')
    → find_row (is_event event.event_id) db.partner_order_events ≡ none
    → is_of_venue venue_id id db ≡ true
    → (is_known event.event_id id event db' ≡ true) × (is_of_venue venue_id id db' ≡ true)
apply_event-is_known env venue_id id status target event db h new of_venue =
    let events = apply_event-events env id status target event db h in
    let (orders, _) = apply_event-tables env id status target event db h in
    let found =
      find_row-inserted (is_event event.event_id) (event_row id event) db.partner_order_events new
        (same_refl event.event_id) in
    let kept =
      seen-update_id (λ o. same o.venue_id venue_id) false (event_applied env.now event target)
        (λ r. refl) id id db.orders in
    (ground (arith, events, found), rw (orders, kept) (ground arith))

-- What a delivery that succeeds leaves, whether it was the first of its event or not.
record_order_event_tx-is_known :
    (env : Env) (venue_id order_id event_id : Text) (event : OrderEvent) (db db' : Db)
    → env.uuid_in order_id ≡ some order_id
    → env.uuid_in event.event_id ≡ some event_id
    → record_order_event_tx env venue_id order_id event db ≡ ok (tt, db')
    → (is_known event_id order_id event db' ≡ true) × (is_of_venue venue_id order_id db' ≡ true)
unfolding record_order_event_tx
record_order_event_tx-is_known env venue_id order_id event_id event db db' e g h =
    elim (Option-cases (find_row (has_id order_id) db.orders)) [
      | inl missing ↦ absurd (ground arith)
      | inr (row, found) ↦
          elim (Option-cases (find_row (is_event event_id) db.partner_order_events)) [
            | inr (old, known) ↦ ground arith
            | inl new ↦ elim (Option-cases (event_transition row.status event.type)) [
              | inl refused ↦ absurd (ground arith)
              | inr (target, moves) ↦
                  apply_event-is_known env venue_id order_id row.status target
                    (record event { event_id = event_id }) db {db' = db'} (ground arith) new
                    (ground arith)
            ]
          ]
    ]

-- A delivery of an event that is known, on a server that does not fail, changes nothing.
record_order_event_tx-known :
    (env : Env) (venue_id order_id event_id : Text) (event : OrderEvent) (db : Db)
    → ((f : Fault) → env.fails f ≡ false)
    → env.uuid_in order_id ≡ some order_id
    → env.uuid_in event.event_id ≡ some event_id
    → is_known event_id order_id event db ≡ true
    → is_of_venue venue_id order_id db ≡ true
    → record_order_event_tx env venue_id order_id event db ≡ ok (tt, db)
unfolding record_order_event_tx
record_order_event_tx-known env venue_id order_id event_id event db smooth e g known of_venue =
    elim (Option-cases (find_row (has_id order_id) db.orders)) [
      | inl missing ↦ absurd (ground arith)
      | inr (row, found) ↦
          elim (Option-cases (find_row (is_event event_id) db.partner_order_events)) [
            | inl new ↦ absurd (ground arith)
            | inr (old, there) ↦ ground (
              arith,
              smooth Store.lock_platform_order_event,
              smooth Store.find_existing_order_event,
            )
          ]
    ]

-- Once a callback of the venue has succeeded, the same callback again succeeds and changes nothing,
-- where the server does not fail then and gives the identifier of the order back as it is written.
pub record_order_event-repeat :
    (env env' : Env) (venue_id order_id event_id : Text) (event : OrderEvent) (db : Db)
    → env.uuid_in order_id ≡ some order_id
    → env.uuid_in event.event_id ≡ some event_id
    → env'.uuid_in order_id ≡ some order_id
    → env'.uuid_in event.event_id ≡ some event_id
    → ((f : Fault) → env'.fails f ≡ false)
    → (record_order_event env venue_id order_id event db).result ≡ ok tt
    → record_order_event env' venue_id order_id event
        (record_order_event env venue_id order_id event db).db
      ≡ record { result = ok tt; db = (record_order_event env venue_id order_id event db).db }
unfolding record_order_event
record_order_event-repeat env env' venue_id order_id event_id event db e g e' g' smooth h =
    let done = transaction-ok env (record_order_event_tx env venue_id order_id event) db tt h in
    let (known, of_venue) =
      record_order_event_tx-is_known env venue_id order_id event_id event db _ e g done in
    transaction-commits env' (record_order_event_tx env' venue_id order_id event) _ tt _ smooth (
      record_order_event_tx-known env' venue_id order_id event_id event _ smooth e' g' known
        of_venue)
