-- ===== src/Platform/System/Moves/Customers.antt =====
-- Moves under `CreateOrder` and `CancelOrder` of internal/platform/repository/orders.go.
use avito_kitchen.Base.{
  ℕ, ◌+◌, ◌≡◌, ◌∙◌, refl, sym, subst, false, none, some, List, [], Text, length, coalesce, find_row,
  exists_row, insert_row, arith, Option-cases, inl, inr, ◌⊎◌,
}
use avito_kitchen.Platform.Store.{OrderStatus, CancellationStatus, OrderRow, VenueRow, Db, Env}
use avito_kitchen.Platform.Store
use avito_kitchen.Platform.Domain.{Order, OrderItem, CreateOrderCommand}
use avito_kitchen.Platform.Orders.{
  has_id, has_access, is_open_job, has_job_id, cancelled_row, cancellation_row, withdrawn_job,
  cancel_pending, request_cancellation, cancel_switch, cancel_order_tx, cancel_order,
  insert_order_history,
}
use avito_kitchen.Platform.Checkout.{insert_items}
use avito_kitchen.Platform.Checkout.Create.{
  row_of_command, insert_checkout, create_order_tx, create_order,
}
use avito_kitchen.Platform.Consistency.{
  IsConsistent, transaction_keeps, find_row-has_access, find_row-insert_row,
}
use avito_kitchen.Platform.Consistency.Cancelling.{
  cancel_pending-tables, request_cancellation-tables, insert_order_history-tables,
}
use avito_kitchen.Platform.Consistency.Placing.{
  insert_items-tables, insert_checkout-tables, Checkout, repeated, placed, create_order_tx-Checkout,
}
use avito_kitchen.Platform.System.Kept.{insert_row-IsKept}
use avito_kitchen.Platform.System.Machine.{by_checkout, by_customer, advances_refl}
use avito_kitchen.Platform.System.Jobs.{updated, inserted, is_job}
use avito_kitchen.Platform.System.Moves.{Advances, refl-Advances, update_id-Advances}
use avito_kitchen.Shared.Transaction.{ok, Result-cases}

-- The identifier of the new job is no row's.
request_cancellation-new :
    (env : Env) (db : Db) (id : Text) {db' : Db}
    → request_cancellation env db id ≡ ok db'
    → has_job_id (coalesce (env.uuid 0) []) db ≡ false
unfolding request_cancellation
request_cancellation-new env db id h = ground arith

insert_checkout-new :
    (env : Env) (command : CreateOrderCommand) (venue : VenueRow) (items : List OrderItem)
    (amount : ℕ) (db : Db) {order : Order} {db' : Db}
    → insert_checkout env command venue items amount db ≡ ok (order, db')
    → has_job_id (coalesce (env.uuid (length items + 1)) []) db ≡ false
unfolding insert_checkout
insert_checkout-new env command venue items amount db h =
    let start = record db {
      orders = insert_row (row_of_command env command venue amount) db.orders;
    } in
    elim (Result-cases (insert_items env command.order_id venue.currency 0 items start)) [
      | inr (e, failed) ↦ absurd (ground arith)
      | inl (db₁, added) ↦
          elim (Result-cases (
            insert_order_history env (length items) Store.insert_order_history db₁ command.order_id
              Store.pending_confirmation Store.customer none env.now)) [
                | inr (e, failed) ↦ absurd (ground arith)
                | inl (db₂, noted) ↦
                    let same_jobs : db₂.outbox ≡ db.outbox = ground (
                      arith,
                      insert_items-tables env command.order_id venue.currency 0 items start added,
                      insert_order_history-tables env (length items) Store.insert_order_history db₁
                          command.order_id Store.pending_confirmation Store.customer none env.now
                          noted,
                    ) in
                    subst
                      (λ outbox.
                        exists_row (is_job (coalesce (env.uuid (length items + 1)) [])) outbox
                        ≡ false)
                      same_jobs (ground arith)
              ]
    ]

insert_checkout-Advances :
    (env : Env) (command : CreateOrderCommand) (venue : VenueRow) (items : List OrderItem)
    (amount : ℕ) (db : Db) {order : Order} {db' : Db}
    → insert_checkout env command venue items amount db ≡ ok (order, db')
    → Advances by_checkout db db'
insert_checkout-Advances env command venue items amount db h =
    let (free, e, f) = insert_checkout-tables env command venue items amount db h in
    let row = row_of_command env command venue amount in
    record {
      jobs = inserted _ (insert_checkout-new env command venue items amount db h) f;
      moves = λ id {o} found.
          rw e (ground (arith, find_row-insert_row id row db.orders, advances_refl by_checkout o));
      born = λ id absent. rw e (ground (arith, find_row-insert_row id row db.orders));
      kept =
          λ customer_ref key found. rw e (insert_row-IsKept row db.orders customer_ref key found);
    }

create_order_tx-Advances :
    (env : Env) (command : CreateOrderCommand) {db db' : Db} {order : Order}
    → Checkout env command order db db'
    → Advances by_checkout db db'
create_order_tx-Advances env command {db} (repeated _ e) =
    subst (Advances by_checkout db) (sym e) (refl-Advances by_checkout db)
create_order_tx-Advances env command {db} (placed venue items amount _ _ h) =
    insert_checkout-Advances env command venue items amount db h

pub create_order-Advances :
    (env : Env) (command : CreateOrderCommand) (db : Db)
    → Advances by_checkout db (create_order env command db).db
unfolding create_order
create_order-Advances env command db =
    transaction_keeps (Advances by_checkout db) env (create_order_tx env command) db
      (refl-Advances by_checkout db)
      λ order db' h.
        create_order_tx-Advances env command (create_order_tx-Checkout env command db order db' h)

-- What the switch of `CancelOrder` comes to when it succeeds.
data Switched (env : Env) (id : Text) (db : Db) (s : OrderStatus) (k : CancellationStatus)
    (db' : Db) : Type 0 where
  repeats : db' ≡ db → Switched env id db s k db'
  withdraws :
      s ≡ Store.pending_confirmation
      → cancel_pending env db id ≡ ok db'
      → Switched env id db s k db'
  asks :
      s ≡ Store.accepted
      → (k ≡ Store.no_cancellation) ⊎ (k ≡ Store.failed)
      → request_cancellation env db id ≡ ok db'
      → Switched env id db s k db'

cancel_switch-Switched :
    (env : Env) (id : Text) (db : Db) (s : OrderStatus) (k : CancellationStatus) {db' : Db}
    → cancel_switch s k env db id ≡ ok db'
    → Switched env id db s k db'
unfolding cancel_switch
cancel_switch-Switched env id db Store.cancelled Store.confirmed h = repeats (cc)
cancel_switch-Switched env id db _ Store.requested h = repeats (cc)
cancel_switch-Switched env id db _ CancellationStatus.rejected h = repeats (cc)
cancel_switch-Switched env id db Store.pending_confirmation _ h = withdraws refl h
cancel_switch-Switched env id db Store.accepted Store.no_cancellation h = asks refl (inl refl) h
cancel_switch-Switched env id db Store.accepted Store.failed h = asks refl (inr refl) h
cancel_switch-Switched env id db _ _ h = cc

stays-Advances : {db db' : Db} → db' ≡ db → Advances by_customer db db'
stays-Advances {db} e = subst (Advances by_customer db) (sym e) (refl-Advances by_customer db)

module _ (env : Env) (id : Text) {db : Db} (c : IsConsistent db) {o : OrderRow}
    (found : find_row (has_id id) db.orders ≡ some o) where
  cancel_pending-Advances :
      o.status ≡ Store.pending_confirmation
      → {db' : Db} → cancel_pending env db id ≡ ok db'
      → Advances by_customer db db'
  cancel_pending-Advances p h =
      let (e, f) = cancel_pending-tables env db id h in
      update_id-Advances id (cancelled_row env.now) (λ r. refl)
        (updated (is_open_job id Store.confirm_order) (withdrawn_job env.now)
          (λ r. record { id = refl; aggregate_id = refl; event_type = refl }) f)
        e (λ o' found'. ground (arith, c.sound id))

  request_cancellation-Advances :
      o.status ≡ Store.accepted
      → (o.cancellation_status ≡ Store.no_cancellation) ⊎ (o.cancellation_status ≡ Store.failed)
      → {db' : Db} → request_cancellation env db id ≡ ok db'
      → Advances by_customer db db'
  request_cancellation-Advances p q h =
      let (e, f) = request_cancellation-tables env db id h in
      update_id-Advances id (cancellation_row Store.requested env.now) (λ r. refl)
        (inserted _ (request_cancellation-new env db id h) f) e (λ o' found'. ground arith)

  cancel_switch-Advances :
      (s : OrderStatus) (k : CancellationStatus) {db' : Db}
      → o.status ≡ s
      → o.cancellation_status ≡ k
      → Switched env id db s k db'
      → Advances by_customer db db'
  cancel_switch-Advances s k p q (repeats e) = stays-Advances e
  cancel_switch-Advances s k p q (withdraws e h) = cancel_pending-Advances (p ∙ e) h
  cancel_switch-Advances s k p q (asks e (inl f) h) =
      request_cancellation-Advances (p ∙ e) (inl (q ∙ f)) h
  cancel_switch-Advances s k p q (asks e (inr f) h) =
      request_cancellation-Advances (p ∙ e) (inr (q ∙ f)) h

cancel_order_tx-Advances :
    (env : Env) (order_id token_hash : Text) (db : Db)
    → IsConsistent db
    → (a : Order) (db' : Db) → cancel_order_tx env order_id token_hash db ≡ ok (a, db')
    → Advances by_customer db db'
unfolding cancel_order_tx
cancel_order_tx-Advances env order_id token_hash db c a db' h =
    elim (Option-cases (env.uuid_in order_id)) [
      | inl bad ↦ absurd (ground arith)
      | inr (id, e) ↦ elim (Option-cases (find_row (has_access id token_hash) db.orders)) [
        | inl missing ↦ absurd (ground arith)
        | inr (row, found) ↦
            cancel_switch-Advances env id c
              (find_row-has_access id token_hash db.orders c.keyed found) row.status
              row.cancellation_status refl refl
              (cancel_switch-Switched env id db row.status row.cancellation_status (ground arith))
      ]
    ]

pub cancel_order-Advances :
    (env : Env) (order_id token_hash : Text) (db : Db)
    → IsConsistent db
    → Advances by_customer db (cancel_order env order_id token_hash db).db
unfolding cancel_order
cancel_order-Advances env order_id token_hash db c =
    transaction_keeps (Advances by_customer db) env (cancel_order_tx env order_id token_hash) db
      (refl-Advances by_customer db) (cancel_order_tx-Advances env order_id token_hash db c)
