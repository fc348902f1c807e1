-- ===== src/Platform/Consistency/Placing.antt =====
-- Orders and jobs under `CreateOrder` of internal/platform/repository/orders.go.
use avito_kitchen.Base.{
  ℕ, suc, ◌+◌, ◌≡◌, refl, sym, Bool, false, none, some, List, [], ◌∷◌, Text, ◌||◌, length, find_row,
  exists_row, insert_row, arith, Option-cases, inl, inr, subst, count_where-insert_row, coalesce,
}
use avito_kitchen.Platform.Store.{JobType, OrderRow, OutboxRow, VenueRow, Db, Env}
use avito_kitchen.Platform.Store
use avito_kitchen.Platform.Domain.{Order, OrderItem, CreateOrderCommand}
use avito_kitchen.Platform.Orders.{has_id, is_open_job, insert_order_history}
use avito_kitchen.Platform.Checkout.{add_item, item_row, insert_items, find_idempotent_order}
use avito_kitchen.Platform.Checkout.Create.{
  row_of_command, is_taken, confirm_job, price_request, insert_checkout, create_order_tx,
  create_order,
}
use avito_kitchen.Platform.Consistency.{
  IsConsistent, IsKeyed, transaction_keeps, find_row-insert_row,
}
use avito_kitchen.Platform.Consistency.Cancelling.{insert_order_history-tables}
use avito_kitchen.Shared.Transaction.{ok, Result-cases}

pub insert_items-tables :
    (env : Env) (order_id currency : Text) (position : ℕ) (items : List OrderItem) (db : Db)
    {db' : Db}
    → insert_items env order_id currency position items db ≡ ok db'
    → (db'.orders ≡ db.orders) × (db'.outbox ≡ db.outbox)
unfolding insert_items
insert_items-tables env order_id currency position [] db h = ground arith
insert_items-tables env order_id currency position (item ∷ items) db {db'} h =
    elim (Option-cases (env.uuid position)) [
      | inl bad ↦ absurd (ground arith)
      | inr (id, e) ↦ elim (Option-cases (env.uuid_in item.menu_item_id)) [
        | inl bad ↦ absurd (ground arith)
        | inr (menu_id, f) ↦
            insert_items-tables env order_id currency (suc position) items
              (add_item (item_row id order_id menu_id currency position item) db) {db' = db'}
              (ground arith)
      ]
    ]

pub insert_checkout-tables :
    (env : Env) (command : CreateOrderCommand) (venue : VenueRow) (items : List OrderItem)
    (amount : ℕ) (db : Db) {order : Order} {db' : Db}
    → insert_checkout env command venue items amount db ≡ ok (order, db')
    → (exists_row (is_taken command) db.orders ≡ false)
      × (db'.orders ≡ insert_row (row_of_command env command venue amount) db.orders)
      × (db'.outbox
          ≡ insert_row
              (confirm_job env command items (coalesce (env.uuid (length items + 1)) []))
              db.outbox)
unfolding insert_checkout
insert_checkout-tables env command venue items amount db h =
    let start = record db {
      orders = insert_row (row_of_command env command venue amount) db.orders;
    } in
    elim (Result-cases (insert_items env command.order_id venue.currency 0 items start)) [
      | inr (e, failed) ↦ absurd (ground arith)
      | inl (db₁, inserted) ↦
          elim (Result-cases (
            insert_order_history env (length items) Store.insert_order_history db₁ command.order_id
              Store.pending_confirmation Store.customer none env.now)) [
                | inr (e, failed) ↦ absurd (ground arith)
                | inl (db₂, noted) ↦ ground (
                  arith,
                  insert_items-tables env command.order_id venue.currency 0 items start inserted,
                  insert_order_history-tables env (length items) Store.insert_order_history db₁
                      command.order_id Store.pending_confirmation Store.customer none env.now noted,
                )
              ]
    ]

is_taken-has_id :
    (command : CreateOrderCommand) (xs : List OrderRow)
    → exists_row (is_taken command) xs ≡ false
    → exists_row (has_id command.order_id) xs ≡ false
is_taken-has_id command [] h = refl
is_taken-has_id command (r ∷ rs) h = ground (arith, is_taken-has_id command rs)

exists_row-insert_row :
    (p : OrderRow → Bool) (x : OrderRow) (xs : List OrderRow)
    → exists_row p (insert_row x xs) ≡ (exists_row p xs || p x)
exists_row-insert_row p x [] = ground arith
exists_row-insert_row p x (r ∷ rs) = ground (arith, exists_row-insert_row p x rs)

exists_row→find_row :
    (p : OrderRow → Bool) (xs : List OrderRow) → exists_row p xs ≡ false → find_row p xs ≡ none
exists_row→find_row p [] h = refl
exists_row→find_row p (r ∷ rs) h = ground (arith, exists_row→find_row p rs)

insert_row-IsKeyed :
    (x : OrderRow) (xs : List OrderRow)
    → exists_row (has_id x.id) xs ≡ false
    → IsKeyed xs
    → IsKeyed (insert_row x xs)
insert_row-IsKeyed x [] h k = (refl, tt)
insert_row-IsKeyed x (r ∷ rs) h k = (
  ground (arith, exists_row-insert_row (has_id r.id) x rs, k.0),
  insert_row-IsKeyed x rs (ground arith) k.1,
)

module _ (env : Env) (command : CreateOrderCommand) {db db' : Db} (c : IsConsistent db) where
  insert_checkout-IsConsistent :
      (venue : VenueRow) (items : List OrderItem) (amount : ℕ) {order : Order}
      → insert_checkout env command venue items amount db ≡ ok (order, db')
      → IsConsistent db'
  insert_checkout-IsConsistent venue items amount h =
      let (free, e, f) = insert_checkout-tables env command venue items amount db h in
      let row = row_of_command env command venue amount in
      let job = confirm_job env command items (coalesce (env.uuid (length items + 1)) []) in
      let new = is_taken-has_id command db.orders free in
      let absent = exists_row→find_row (has_id command.order_id) db.orders new in
      record {
        keyed = rw e (insert_row-IsKeyed row db.orders new c.keyed);
        sound = λ id. rw e (ground (arith, c.sound id, find_row-insert_row id row db.orders));
        jobs = λ id type.
            rw (e, f)
              (ground (
                arith,
                c.jobs id type,
                absent,
                find_row-insert_row id row db.orders,
                count_where-insert_row (is_open_job id type) job db.outbox,
              ));
      }

-- A checkout that succeeds is a repeat, which changes nothing, or a priced request that is saved.
pub data Checkout (env : Env) (command : CreateOrderCommand) (order : Order) (db db' : Db)
    : Type 0 where
  repeated :
      find_idempotent_order env db command.request.customer_ref command.idempotency_key
        ≡ ok (some (order, command.request_hash))
      → db' ≡ db
      → Checkout env command order db db'
  placed :
      (venue : VenueRow) (items : List OrderItem) (amount : ℕ)
      → find_idempotent_order env db command.request.customer_ref command.idempotency_key ≡ ok none
      → price_request env db command ≡ ok (venue, items, amount)
      → insert_checkout env command venue items amount db ≡ ok (order, db')
      → Checkout env command order db db'

pub create_order_tx-Checkout :
    (env : Env) (command : CreateOrderCommand) (db : Db) (order : Order) (db' : Db)
    → create_order_tx env command db ≡ ok (order, db')
    → Checkout env command order db db'
unfolding create_order_tx
create_order_tx-Checkout env command db order db' h =
    elim (Result-cases
      (find_idempotent_order env db command.request.customer_ref command.idempotency_key)) [
        | inr (e, failed) ↦ absurd (ground arith)
        | inl (some (saved, hash), found) ↦ repeated (ground arith) (ground arith)
        | inl (none, found) ↦ elim (Result-cases (price_request env db command)) [
          | inr (e, failed) ↦ absurd (ground arith)
          | inl ((venue, items, amount), priced) ↦
              placed venue items amount found priced (ground arith)
        ]
      ]

create_order_tx-IsConsistent :
    (env : Env) (command : CreateOrderCommand) {db db' : Db} {order : Order}
    → IsConsistent db
    → Checkout env command order db db'
    → IsConsistent db'
create_order_tx-IsConsistent env command c (repeated _ e) = subst IsConsistent (sym e) c
create_order_tx-IsConsistent env command c (placed venue items amount _ _ h) =
    insert_checkout-IsConsistent env command c venue items amount h

-- A checkout keeps the agreement of orders and jobs (no two orders share an identifier; a cancelled
-- order has a confirmed cancellation and no other order has one, only an accepted order comes to
-- any other cancellation status, and totals add up; each order has exactly the unprocessed jobs
-- that its two statuses call for), whatever its outcome.
pub create_order-IsConsistent :
    (env : Env) (command : CreateOrderCommand) (db : Db)
    → IsConsistent db
    → IsConsistent (create_order env command db).db
unfolding create_order
create_order-IsConsistent env command db c =
    transaction_keeps IsConsistent env (create_order_tx env command) db c λ order db' h.
      create_order_tx-IsConsistent env command c
        (create_order_tx-Checkout env command db order db' h)
