-- ===== src/Platform/System/Moves.antt =====
-- What each operation of the platform does to the orders, as moves of the abstract machine, and to
-- the table of jobs.
pub mod Customers
pub mod Workers
pub mod Partners
use avito_kitchen.Base.{
  ℕ, ◌≡◌, refl, sym, subst, ap, Bool, true, false, Option, none, some, Text, find_row, update_where,
  same, ◌&&◌, if◌then◌else◌, arith,
}
use avito_kitchen.Platform.Store.{OrderRow, OutboxRow, Db}
use avito_kitchen.Platform.Store
use avito_kitchen.Platform.Orders.{has_id}
use avito_kitchen.Platform.Consistency.{IsConsistent, seen, seen-update_id, seen-update_guarded}
use avito_kitchen.Platform.System.Machine.{Actor, advances, advances_refl, begins}
use avito_kitchen.Platform.Checkout.{has_key}
use avito_kitchen.Platform.System.Kept.{as_placed, IsKept, update_where-IsKept}
use avito_kitchen.Platform.System.Jobs.{OutboxChange, untouched}

-- Every order is still there, where it was or one move on, a new one begins, and the jobs change as
-- a table does.
pub record Advances (by : Actor) (db db' : Db) : Type 0 where
  pub jobs : OutboxChange db.outbox db'.outbox
  pub moves :
      (id : Text) {o : OrderRow}
      → find_row (has_id id) db.orders ≡ some o
      → seen (advances by o) false id db'.orders ≡ true
  pub born :
      (id : Text)
      → find_row (has_id id) db.orders ≡ none
      → seen (begins by) true id db'.orders ≡ true
  pub kept :
      (customer_ref key : Text) {o : OrderRow}
      → find_row (has_key customer_ref key) db.orders ≡ some o
      → IsKept o (find_row (has_key customer_ref key) db'.orders)

pub unmoved-Advances :
    {by : Actor} {db db' : Db}
    → db'.orders ≡ db.orders
    → OutboxChange db.outbox db'.outbox
    → Advances by db db'
unmoved-Advances {by} {db} e jobs = record {
  jobs = jobs;
  moves = λ id {o} found. rw e (ground (arith, advances_refl by o));
  born = λ id absent. rw e (ground arith);
  kept = λ customer_ref key {o} found. rw e (o, found, refl);
}

pub refl-Advances : (by : Actor) (db : Db) → Advances by db db
refl-Advances by db = unmoved-Advances refl (untouched refl)

ids :
    (f : OrderRow → OrderRow)
    → ((r : OrderRow) → as_placed (f r) ≡ as_placed r)
    → (r : OrderRow) → (f r).id ≡ r.id
ids f keeps r = ap OrderRow.id (keeps r)

module _ {by : Actor} {db db' : Db} (order_id : Text) (f : OrderRow → OrderRow)
    (keeps : (r : OrderRow) → as_placed (f r) ≡ as_placed r)
    (jobs : OutboxChange db.outbox db'.outbox) where
  -- One order moves.
  pub update_id-Advances :
      db'.orders ≡ update_where (has_id order_id) f db.orders
      → ((o : OrderRow)
          → find_row (has_id order_id) db.orders ≡ some o
          → advances by o (f o) ≡ true)
      → Advances by db db'
  update_id-Advances e move = record {
    jobs = jobs;
    moves = λ id {o} found. rw e (
        ground (
          arith,
          seen-update_id (advances by o) false f (ids f keeps) id order_id db.orders,
          advances_refl by o,
          move o,
        ));
    born = λ id absent.
        rw e
          (ground (arith, seen-update_id (begins by) true f (ids f keeps) id order_id db.orders));
    kept = λ customer_ref key found.
        rw e (update_where-IsKept (has_id order_id) f keeps db.orders customer_ref key found);
  }

  -- One order moves, if a condition holds of it.
  pub update_guarded-Advances :
      (q : OrderRow → Bool)
      → db'.orders ≡ update_where (λ r. same r.id order_id && q r) f db.orders
      → ((o : OrderRow)
          → find_row (has_id order_id) db.orders ≡ some o
          → q o ≡ true
          → advances by o (f o) ≡ true)
      → Advances by db db'
  update_guarded-Advances q e move = record {
    jobs = jobs;
    moves = λ id {o} found. rw e (
        ground (
          arith,
          seen-update_guarded (advances by o) false f (ids f keeps) id order_id q db.orders,
          advances_refl by o,
          move o,
        ));
    born = λ id absent. rw e (
        ground
          (arith, seen-update_guarded (begins by) true f (ids f keeps) id order_id q db.orders));
    kept = λ customer_ref key found. rw e (
        update_where-IsKept (λ r. same r.id order_id && q r) f keeps db.orders customer_ref key
          found);
  }
