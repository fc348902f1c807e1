-- ===== src/Platform/Consistency.antt =====
-- Orders and their jobs: the notion of agreement, and the lemmas on the tables `orders` and `outbox` that the
-- proofs about each operation share.
pub mod Cancelling
pub mod Finishing
pub mod Recording
pub mod Placing
pub mod Working
use avito_kitchen.Base.{
  ℕ, ◌+◌, ◌≡◌, refl, Bool, true, false, Option, none, some, List, [], ◌∷◌, Text, same, ◌&&◌, ◌==◌,
  bit, if◌then◌else◌, is_none, find_row, exists_row, update_where, count_where, insert_row, All,
  arith, count_where-insert_row,
}
use avito_kitchen.Platform.Store.{
  OrderStatus, CancellationStatus, JobType, OrderRow, OutboxRow, Db, Env, RepoError, Fault,
}
use avito_kitchen.Platform.Store
use avito_kitchen.Platform.Domain.{OutboxJob}
use avito_kitchen.Platform.Orders.{has_id, has_access, is_open_job}
use avito_kitchen.Platform.Outbox.{is_wanted}
use avito_kitchen.Platform.Run.{Tx, transaction}
use avito_kitchen.Shared.Transaction.{ok, Outcome, within_transaction_keeps}

-- What the order with an identifier gives, or `d` where there is none.
abbrev pub seen : {B : Type 0} → (OrderRow → B) → B → Text → List OrderRow → B
seen g d id orders = elim (find_row (has_id id) orders) [ none ↦ d | some o ↦ g o ]

-- The number of jobs of a type that an order still waits for.
abbrev pub wanted_jobs : JobType → Text → List OrderRow → ℕ
wanted_jobs type = seen (λ o. bit (is_wanted type o)) 0

-- The pairs of the two statuses that an order can have: a cancelled order has a confirmed
-- cancellation and no other order has one, and only an accepted order comes to any other.
abbrev pub is_sound_state : OrderStatus → CancellationStatus → Bool
is_sound_state Store.cancelled Store.confirmed = true
is_sound_state Store.cancelled _ = false
is_sound_state _ Store.confirmed = false
is_sound_state _ Store.no_cancellation = true
is_sound_state Store.pending_confirmation _ = false
is_sound_state OrderStatus.rejected _ = false
is_sound_state Store.confirmation_expired _ = false
is_sound_state _ _ = true

abbrev pub is_sound : OrderRow → Bool
is_sound o =
    is_sound_state o.status o.cancellation_status
    && o.total_amount == o.items_amount + o.delivery_amount

abbrev pub open_jobs : JobType → Text → List OutboxRow → ℕ
open_jobs type id outbox = count_where (is_open_job id type) outbox

-- The primary key of `orders`.
abbrev pub IsKeyed : List OrderRow → Type 0
IsKeyed [] = Unit
IsKeyed (r ∷ rs) = (exists_row (has_id r.id) rs ≡ false) × IsKeyed rs

-- No two orders share an identifier, and every order is sound. It has exactly the unprocessed jobs that its two statuses call for: one confirmation
-- while it is pending, one cancellation while that is requested, and no other.
pub record IsConsistent (db : Db) : Type 0 where
  pub keyed : IsKeyed db.orders
  pub sound : (id : Text) → seen is_sound true id db.orders ≡ true
  pub jobs :
      (id : Text) (type : JobType) → open_jobs type id db.outbox ≡ wanted_jobs type id db.orders

-- A job that a worker holds names its row's order and type, whoever holds the lease by now.
pub record IsIssued (job : OutboxJob) (db : Db) : Type 0 where
  pub named :
      All
        (λ (r : OutboxRow).
          r.id ≡ job.id → (r.aggregate_id ≡ job.order_id) × (r.event_type ≡ job.event_type))
        db.outbox

-- A transaction keeps what each of its successful runs keeps.
pub transaction_keeps :
    {A : Type 0} (P : Db → Type 0) (env : Env) (op : Db → Tx A) (db : Db)
    → P db
    → ((a : A) (db' : Db) → op db ≡ ok (a, db') → P db')
    → P (transaction env op db).db
unfolding transaction
transaction_keeps P env op db h keep = within_transaction_keeps P _ _ _ _ op db h keep

module _ {B : Type 0} (g : OrderRow → B) (d : B) (f : OrderRow → OrderRow)
    (keeps : (r : OrderRow) → (f r).id ≡ r.id) (id order_id : Text) where
  -- An update of one order leaves what the others give.
  pub seen-update_id :
      (xs : List OrderRow)
      → seen g d id (update_where (has_id order_id) f xs)
        ≡ (if same order_id id then seen (λ r. g (f r)) d order_id xs else seen g d id xs)
  seen-update_id [] = ground arith
  seen-update_id (r ∷ rs) = ground (arith, keeps r, seen-update_id rs)

  -- The same, where the update has one more condition.
  pub seen-update_guarded :
      (q : OrderRow → Bool) (xs : List OrderRow)
      → seen g d id (update_where (λ r. same r.id order_id && q r) f xs) ≡ (
          if same order_id id
          then seen (λ r. g (if q r then f r else r)) d order_id xs
          else seen g d id xs)
  seen-update_guarded q [] = ground arith
  seen-update_guarded q (r ∷ rs) = ground (arith, keeps r, seen-update_guarded q rs)

module _ (p : OrderRow → Bool) (f : OrderRow → OrderRow)
    (keeps : (r : OrderRow) → (f r).id ≡ r.id) where
  exists_row-update_where :
      (id : Text) (xs : List OrderRow)
      → exists_row (has_id id) (update_where p f xs) ≡ exists_row (has_id id) xs
  exists_row-update_where id [] = refl
  exists_row-update_where id (r ∷ rs) = ground (arith, keeps r, exists_row-update_where id rs)

  pub update_where-IsKeyed : (xs : List OrderRow) → IsKeyed xs → IsKeyed (update_where p f xs)
  update_where-IsKeyed [] h = tt
  update_where-IsKeyed (r ∷ rs) h =
      (ground (arith, keeps r, exists_row-update_where r.id rs, h.0), update_where-IsKeyed rs h.1)

exists_row-has_access :
    (id token_hash : Text) (xs : List OrderRow) {r : OrderRow}
    → find_row (has_access id token_hash) xs ≡ some r
    → exists_row (has_id id) xs ≡ true
exists_row-has_access id token_hash [] h = cc
exists_row-has_access id token_hash (x ∷ xs) {r} h =
    ground (arith, exists_row-has_access id token_hash xs {r = r})

-- The order that a customer reaches with a token is the one with its identifier.
pub find_row-has_access :
    (id token_hash : Text) (xs : List OrderRow) {r : OrderRow}
    → IsKeyed xs
    → find_row (has_access id token_hash) xs ≡ some r
    → find_row (has_id id) xs ≡ some r
find_row-has_access id token_hash [] k h = cc
find_row-has_access id token_hash (x ∷ xs) {r} k h = ground (
  arith,
  k.0,
  find_row-has_access id token_hash xs {r = r} k.1,
  exists_row-has_access id token_hash xs {r = r},
)

pub find_row-insert_row :
    (id : Text) (x : OrderRow) (xs : List OrderRow)
    → find_row (has_id id) (insert_row x xs) ≡ elim (find_row (has_id id) xs) [
      | none ↦ if has_id id x then some x else none
      | some r ↦ some r
    ]
find_row-insert_row id x [] = refl
find_row-insert_row id x (r ∷ rs) = ground (arith, find_row-insert_row id x rs)

-- An update that leaves a row's order, type and state of processing alone changes no count.
pub open_jobs-update_where :
    (p : OutboxRow → Bool) (f : OutboxRow → OutboxRow)
    → ((r : OutboxRow) (id : Text) (type : JobType)
        → is_open_job id type (f r) ≡ is_open_job id type r)
    → (type : JobType) (id : Text) (xs : List OutboxRow)
    → open_jobs type id (update_where p f xs) ≡ open_jobs type id xs
open_jobs-update_where p f same_job type id [] = refl
open_jobs-update_where p f same_job type id (r ∷ rs) =
    ground (arith, same_job r id type, open_jobs-update_where p f same_job type id rs)

-- Closing the rows of one order and type closes them all, and no other.
pub open_jobs-close :
    (p : OutboxRow → Bool) (f : OutboxRow → OutboxRow) (order_id : Text) (closed : JobType)
    → ((r : OutboxRow) → is_none (f r).processed_at ≡ false)
    → ((r : OutboxRow) → is_open_job order_id closed r ≡ true → p r ≡ true)
    → ((r : OutboxRow) → p r ≡ true → (r.aggregate_id ≡ order_id) × (r.event_type ≡ closed))
    → (type : JobType) (id : Text) (xs : List OutboxRow)
    → open_jobs type id (update_where p f xs)
      ≡ (if same order_id id && Store.same_job closed type then 0 else open_jobs type id xs)
open_jobs-close p f order_id closed done all only type id [] = ground arith
open_jobs-close p f order_id closed done all only type id (r ∷ rs) =
    ground
      (arith, done r, all r, only r, open_jobs-close p f order_id closed done all only type id rs)

-- Closing the one leased row takes one job from its order.
pub open_jobs-finish :
    (p : OutboxRow → Bool) (f : OutboxRow → OutboxRow) (order_id : Text) (done_type : JobType)
    → ((r : OutboxRow) → is_none (f r).processed_at ≡ false)
    → (type : JobType) (id : Text) (xs : List OutboxRow)
    → All
        (λ (r : OutboxRow).
          p r ≡ true
          → (r.aggregate_id ≡ order_id)
            × (r.event_type ≡ done_type)
            × (is_none r.processed_at ≡ true))
        xs
    → open_jobs type id (update_where p f xs)
        + (if same order_id id && Store.same_job done_type type then count_where p xs else 0)
      ≡ open_jobs type id xs
open_jobs-finish p f order_id done_type done type id [] _ = ground arith
open_jobs-finish p f order_id done_type done type id (r ∷ rs) h =
    ground (arith, done r, h.0, open_jobs-finish p f order_id done_type done type id rs h.1)

-- How the operations that update the row of one order are shown to keep the agreement.
module _ {db db' : Db} (c : IsConsistent db) (order_id : Text) (f : OrderRow → OrderRow)
    (keeps : (r : OrderRow) → (f r).id ≡ r.id) where
  pub update_id-IsConsistent :
      db'.orders ≡ update_where (has_id order_id) f db.orders
      → seen (λ r. is_sound (f r)) true order_id db.orders ≡ true
      → ((type : JobType) (id : Text)
          → open_jobs type id db'.outbox ≡ (
              if same order_id id
              then seen (λ r. bit (is_wanted type (f r))) 0 order_id db.orders
              else wanted_jobs type id db.orders))
      → IsConsistent db'
  update_id-IsConsistent e sound jobs = record {
    keyed = rw e (update_where-IsKeyed (has_id order_id) f keeps db.orders c.keyed);
    sound = λ id.
        rw (e, seen-update_id is_sound true f keeps id order_id db.orders)
          (ground (arith, c.sound id, sound));
    jobs = λ id type.
        rw (e, seen-update_id (λ o. bit (is_wanted type o)) 0 f keeps id order_id db.orders)
          (jobs type id);
  }

  pub update_guarded-IsConsistent :
      (q : OrderRow → Bool)
      → db'.orders ≡ update_where (λ r. same r.id order_id && q r) f db.orders
      → seen (λ r. is_sound (if q r then f r else r)) true order_id db.orders ≡ true
      → ((type : JobType) (id : Text)
          → open_jobs type id db'.outbox ≡ (
              if same order_id id
              then seen (λ r. bit (is_wanted type (if q r then f r else r))) 0 order_id db.orders
              else wanted_jobs type id db.orders))
      → IsConsistent db'
  update_guarded-IsConsistent q e sound jobs = record {
    keyed = rw e (update_where-IsKeyed (λ r. same r.id order_id && q r) f keeps db.orders c.keyed);
    sound = λ id.
        rw (e, seen-update_guarded is_sound true f keeps id order_id q db.orders)
          (ground (arith, c.sound id, sound));
    jobs = λ id type.
        rw (e, seen-update_guarded (λ o. bit (is_wanted type o)) 0 f keeps id order_id q db.orders)
          (jobs type id);
  }
