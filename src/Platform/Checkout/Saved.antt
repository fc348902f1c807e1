-- ===== src/Platform/Checkout/Saved.antt =====
-- The order that stands under an idempotency key, from its checkout on: `CreateOrder` of
-- internal/platform/repository/orders.go and whatever the platform does after it.
use avito_kitchen.Base.{
  ℕ, ◌≡◌, ◌⊎◌, subst, refl, ◌∙◌, ap, sym, Bool, true, false, none, some, List, [], ◌∷◌, Text, same,
  length, find_row, exists_row, insert_row, arith, Option-cases, inl, inr,
}
use avito_kitchen.Platform.Store.{OrderRow, VenueRow, Db, Env, Fault}
use avito_kitchen.Platform.Store
use avito_kitchen.Platform.Domain.{Order, OrderItem, CreateOrderCommand}
use avito_kitchen.Platform.Orders.{order_of_row, load_items, insert_order_history}
use avito_kitchen.Platform.Checkout.{
  has_key, lock_checkout_venue, find_idempotent_order, insert_items,
}
use avito_kitchen.Platform.Checkout.Create.{
  price_request, row_of_command, is_taken, insert_checkout,
}
use avito_kitchen.Platform.Consistency.Placing.{Checkout, repeated, placed, insert_checkout-tables}
use avito_kitchen.Platform.System.{World, Reach, here, next}
use avito_kitchen.Platform.System.Kept.{as_placed}
use avito_kitchen.Platform.System.Invariant.{IsInvariant, Step-Advances, Reach-IsInvariant}
use avito_kitchen.Shared.Transaction.{ok, Result-cases}

-- What an answer to a checkout says of the order apart from its items and the place in its life.
-- The identifier of the venue is the same, or the one that the server reads in the request.
pub record AsPlaced (env : Env) (a b : Order) : Type 0 where
  pub venue : (a.venue_id ≡ b.venue_id) ⊎ (env.uuid_in a.venue_id ≡ some b.venue_id)
  pub id : a.id ≡ b.id
  pub customer_ref : a.customer_ref ≡ b.customer_ref
  pub items_amount : a.items_amount ≡ b.items_amount
  pub delivery_amount : a.delivery_amount ≡ b.delivery_amount
  pub total_amount : a.total_amount ≡ b.total_amount
  pub currency : a.currency ≡ b.currency
  pub created_at : a.created_at ≡ b.created_at

order_of_row-AsPlaced :
    (env : Env) (r : OrderRow) (venue_id : Text) (items items' : List OrderItem)
    → (venue_id ≡ r.venue_id) ⊎ (env.uuid_in venue_id ≡ some r.venue_id)
    → AsPlaced env (record (order_of_row r items) { venue_id = venue_id }) (order_of_row r items')
order_of_row-AsPlaced env r venue_id items items' v = record {
  venue = v;
  id = refl;
  customer_ref = refl;
  items_amount = refl;
  delivery_amount = refl;
  total_amount = refl;
  currency = refl;
  created_at = refl;
}

pub as_placed-AsPlaced :
    {env : Env} {order : Order} (r r' : OrderRow) (items items' : List OrderItem)
    → as_placed r' ≡ as_placed r
    → AsPlaced env order (order_of_row r items)
    → AsPlaced env order (order_of_row r' items')
as_placed-AsPlaced {env} {order} r r' items items' e a = record {
  venue =
      subst (λ (k : Text). (order.venue_id ≡ k) ⊎ (env.uuid_in order.venue_id ≡ some k))
        (sym (ap OrderRow.venue_id e)) a.venue;
  id = a.id ∙ sym (ap OrderRow.id e);
  customer_ref = a.customer_ref ∙ sym (ap OrderRow.customer_ref e);
  items_amount = a.items_amount ∙ sym (ap OrderRow.items_amount e);
  delivery_amount = a.delivery_amount ∙ sym (ap OrderRow.delivery_amount e);
  total_amount = a.total_amount ∙ sym (ap OrderRow.total_amount e);
  currency = a.currency ∙ sym (ap OrderRow.currency e);
  created_at = a.created_at ∙ sym (ap OrderRow.created_at e);
}

-- The order and the hash of the request that stand under an idempotency key.
pub record IsSaved (env : Env) (customer_ref key hash : Text) (order : Order) (db : Db)
    : Type 0 where
  pub row : OrderRow
  pub found : find_row (has_key customer_ref key) db.orders ≡ some row
  pub hashed : row.request_hash ≡ hash
  pub returned : AsPlaced env order (order_of_row row order.items)

insert_checkout-returns :
    (env : Env) (command : CreateOrderCommand) (venue : VenueRow) (items : List OrderItem)
    (amount : ℕ) (db : Db) {order : Order} {db' : Db}
    → insert_checkout env command venue items amount db ≡ ok (order, db')
    → order ≡ record (order_of_row (row_of_command env command venue amount) items) {
      venue_id = command.request.venue_id;
    }
unfolding insert_checkout
insert_checkout-returns env command venue items amount db h =
    let start = record db {
      orders = insert_row (row_of_command env command venue amount) db.orders;
    } in
    elim (Result-cases (insert_items env command.order_id venue.currency 0 items start)) [
      | inr (e, failed) ↦ absurd (ground arith)
      | inl (db₁, inserted) ↦
          elim (Result-cases (
            insert_order_history env (length items) Store.insert_order_history db₁ command.order_id
              Store.pending_confirmation Store.customer none env.now)) [
                | inr (e, failed) ↦ absurd (ground arith)
                | inl (db₂, noted) ↦ ground arith
              ]
    ]

find_row-has_key :
    (command : CreateOrderCommand) (x : OrderRow) (xs : List OrderRow)
    → exists_row (is_taken command) xs ≡ false
    → has_key command.request.customer_ref command.idempotency_key x ≡ true
    → find_row (has_key command.request.customer_ref command.idempotency_key) (insert_row x xs)
      ≡ some x
find_row-has_key command x [] fresh e = ground arith
find_row-has_key command x (r ∷ rs) fresh e = ground (arith, find_row-has_key command x rs)

find_idempotent_order-IsSaved :
    (env : Env) (db : Db) (customer_ref key : Text) {order : Order} {hash : Text}
    → find_idempotent_order env db customer_ref key ≡ ok (some (order, hash))
    → IsSaved env customer_ref key hash order db
unfolding find_idempotent_order
find_idempotent_order-IsSaved env db customer_ref key {order = order} h =
    elim (Option-cases (find_row (has_key customer_ref key) db.orders)) [
      | inl missing ↦ absurd (ground arith)
      | inr (r, e) ↦ record {
        row = r;
        found = e;
        hashed = ground arith;
        returned =
            let e : order ≡ order_of_row r (load_items db r.id) = ground arith in
            rw e (order_of_row-AsPlaced env r _ _ _ (inl refl));
      }
    ]

-- The venue of a priced request is the one that the server reads in it.
find_row-holds :
    {A : Type 0} (p : A → Bool) (xs : List A) {x : A} → find_row p xs ≡ some x → p x ≡ true
find_row-holds p [] h = cc
find_row-holds p (y ∷ ys) {x} h = ground (arith, find_row-holds p ys {x = x})

lock_checkout_venue-read :
    (env : Env) (db : Db) (command : CreateOrderCommand) {venue : VenueRow}
    → lock_checkout_venue env db command ≡ ok venue
    → env.uuid_in command.request.venue_id ≡ some venue.id
unfolding lock_checkout_venue
lock_checkout_venue-read env db command {venue} h =
    elim (Option-cases (env.uuid_in command.request.venue_id)) [
      | inl bad ↦ absurd (ground arith)
      | inr (id, e) ↦ elim (Option-cases (find_row (λ (v : VenueRow). same v.id id) db.venues)) [
        | inl missing ↦ absurd (ground arith)
        | inr (v, found) ↦
            let own = find_row-holds (λ (v : VenueRow). same v.id id) db.venues found in
            let one : v ≡ venue = ground arith in ground arith
      ]
    ]

price_request-venue :
    (env : Env) (command : CreateOrderCommand) (db : Db) {venue : VenueRow} {items : List OrderItem}
    {amount : ℕ}
    → price_request env db command ≡ ok (venue, items, amount)
    → env.uuid_in command.request.venue_id ≡ some venue.id
unfolding price_request
price_request-venue env command db {venue} {items} {amount} h =
    elim (Result-cases (lock_checkout_venue env db command)) [
      | inr (e, failed) ↦ absurd (ground arith)
      | inl (v, locked) ↦
          let one : v ≡ venue = ground arith in
          rw (← one) (lock_checkout_venue-read env db command locked)
    ]

pub Checkout-IsSaved :
    {env : Env} {command : CreateOrderCommand} {order : Order} {db db' : Db}
    → Checkout env command order db db'
    → IsSaved env command.request.customer_ref command.idempotency_key command.request_hash order
        db'
Checkout-IsSaved {env} {command} {order} {db} {db'} (repeated found e) =
    rw e (find_idempotent_order-IsSaved env db _ _ found)
Checkout-IsSaved {env} {command} {order} {db} {db'} (placed venue items amount _ priced h) =
    let (fresh, e, _) = insert_checkout-tables env command venue items amount db h in
    let row = row_of_command env command venue amount in
    let is = insert_checkout-returns env command venue items amount db h in
    record {
      row = row;
      found = rw e (find_row-has_key command row db.orders fresh (ground arith));
      hashed = refl;
      returned = rw is (
          order_of_row-AsPlaced env row _ items _
            (inr (price_request-venue env command db priced)));
    }

-- The same order in a later world.
pub Reach-IsSaved :
    {env : Env} {w v : World}
    → IsInvariant w
    → Reach w v
    → {customer_ref key hash : Text} {order : Order} → IsSaved env customer_ref key hash order w.db
    → IsSaved env customer_ref key hash order v.db
Reach-IsSaved i here saved = saved
Reach-IsSaved {env} i (next {v} {u} r s) {customer_ref} {key} {hash} {order} saved =
    let before = Reach-IsSaved i r saved in
    let (row, found, same_row) =
      (Step-Advances (Reach-IsInvariant i r) s).kept customer_ref key before.found in
    record {
      row = row;
      found = found;
      hashed = ap OrderRow.request_hash same_row ∙ before.hashed;
      returned = as_placed-AsPlaced before.row row order.items order.items same_row before.returned;
    }

pub saved_lookup :
    {first : Env} (env : Env) (db : Db) {customer_ref key hash : Text} {order : Order}
    → ((f : Fault) → env.fails f ≡ false)
    → (s : IsSaved first customer_ref key hash order db)
    → find_idempotent_order env db customer_ref key
      ≡ ok (some (order_of_row s.row (load_items db s.row.id), hash))
unfolding find_idempotent_order
saved_lookup env db smooth s =
    ground (
      arith,
      s.found,
      s.hashed,
      smooth Store.find_idempotent_order,
      smooth Store.load_existing_items,
    )
