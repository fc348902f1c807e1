-- ===== src/Platform/Consistency/Cancelling.antt =====
-- Orders and jobs under `CancelOrder` of internal/platform/repository/orders.go.
use avito_kitchen.Base.{
  ℕ, ◌≡◌, refl, false, Option, none, some, [], Text, find_row, update_where, insert_row, coalesce,
  Option-cases, inl, inr, subst, arith, count_where-insert_row,
}
use avito_kitchen.Platform.Store.{
  OrderStatus, CancellationStatus, JobType, OrderRow, OutboxRow, Db, Env, RepoError, Fault, Source,
  is_requested,
}
use avito_kitchen.Platform.Store
use avito_kitchen.Platform.Orders.{
  has_id, is_open_job, cancelled_row, cancellation_row, withdrawn_job, cancel_job, cancel_pending,
  request_cancellation, cancel_switch, cancel_order_tx, cancel_order, insert_order_history,
  has_access,
}
use avito_kitchen.Platform.Domain.{Order}
use avito_kitchen.Platform.Consistency.{
  IsConsistent, transaction_keeps, update_id-IsConsistent, find_row-has_access, open_jobs-close,
}
use avito_kitchen.Shared.Transaction.{ok}

-- The row of the history touches neither table.
pub insert_order_history-tables :
    (env : Env) (n : ℕ) (fault : Fault) (db : Db) (order_id : Text) (status : OrderStatus)
    (source : Source) (reason : Option Text) (at : ℕ) {db' : Db}
    → insert_order_history env n fault db order_id status source reason at ≡ ok db'
    → (db'.orders ≡ db.orders) × (db'.outbox ≡ db.outbox)
unfolding insert_order_history
insert_order_history-tables env n fault db order_id status source reason at h = ground arith

pub cancel_pending-tables :
    (env : Env) (db : Db) (id : Text) {db' : Db}
    → cancel_pending env db id ≡ ok db'
    → (db'.orders ≡ update_where (has_id id) (cancelled_row env.now) db.orders)
      × (db'.outbox
          ≡ update_where (is_open_job id Store.confirm_order) (withdrawn_job env.now) db.outbox)
unfolding cancel_pending insert_order_history
cancel_pending-tables env db id h = ground arith

-- The new job of `request_cancellation`: its identifier is the first that the operation generates.
pub request_cancellation-tables :
    (env : Env) (db : Db) (id : Text) {db' : Db}
    → request_cancellation env db id ≡ ok db'
    → (db'.orders ≡ update_where (has_id id) (cancellation_row Store.requested env.now) db.orders)
      × (db'.outbox ≡ insert_row (cancel_job env id (coalesce (env.uuid 0) [])) db.outbox)
unfolding request_cancellation
request_cancellation-tables env db id h = ground arith

module _ (now : ℕ) (id : Text) {db db' : Db} (c : IsConsistent db) {o : OrderRow}
    (found : find_row (has_id id) db.orders ≡ some o)
    (quiet : is_requested o.cancellation_status ≡ false) where
  withdrawn-IsConsistent :
      o.status ≡ Store.pending_confirmation
      → db'.orders ≡ update_where (has_id id) (cancelled_row now) db.orders
      → db'.outbox ≡ update_where (is_open_job id Store.confirm_order) (withdrawn_job now) db.outbox
      → IsConsistent db'
  withdrawn-IsConsistent p e f =
      update_id-IsConsistent c id (cancelled_row now) (λ r. refl) e (ground (arith, c.sound id))
        λ type j. rw f (
          ground (
            arith,
            c.jobs j type,
            open_jobs-close (is_open_job id Store.confirm_order) (withdrawn_job now) id
                Store.confirm_order (λ r. refl) (λ r h. h) (λ r h. ground arith) type j db.outbox,
          ))

  requested-IsConsistent :
      (row : OutboxRow)
      → o.status ≡ Store.accepted
      → row.aggregate_id ≡ id
      → row.event_type ≡ Store.cancel_order
      → row.processed_at ≡ none
      → db'.orders ≡ update_where (has_id id) (cancellation_row Store.requested now) db.orders
      → db'.outbox ≡ insert_row row db.outbox
      → IsConsistent db'
  requested-IsConsistent row p g k l e f =
      update_id-IsConsistent c id (cancellation_row Store.requested now) (λ r. refl) e
        (ground (arith, c.sound id))
        λ type j.
          rw f (
            ground
              (arith, c.jobs j type, count_where-insert_row (is_open_job j type) row db.outbox))

module _ (env : Env) (id : Text) {db : Db} (c : IsConsistent db) {o : OrderRow}
    (found : find_row (has_id id) db.orders ≡ some o) where
  cancel_pending-IsConsistent :
      o.status ≡ Store.pending_confirmation
      → is_requested o.cancellation_status ≡ false
      → {db' : Db} → cancel_pending env db id ≡ ok db'
      → IsConsistent db'
  cancel_pending-IsConsistent p q h =
      let (e, f) = cancel_pending-tables env db id h in
      withdrawn-IsConsistent env.now id c found q p e f

  request_cancellation-IsConsistent :
      o.status ≡ Store.accepted
      → is_requested o.cancellation_status ≡ false
      → {db' : Db} → request_cancellation env db id ≡ ok db'
      → IsConsistent db'
  request_cancellation-IsConsistent p q h =
      let (e, f) = request_cancellation-tables env db id h in
      requested-IsConsistent env.now id c found q _ p refl refl refl e f

  cancel_switch-IsConsistent :
      (s : OrderStatus) (k : CancellationStatus) {db' : Db}
      → o.status ≡ s
      → o.cancellation_status ≡ k
      → cancel_switch s k env db id ≡ ok db'
      → IsConsistent db'
  unfolding cancel_switch
  cancel_switch-IsConsistent Store.cancelled Store.confirmed p q h = subst IsConsistent (cc) c
  cancel_switch-IsConsistent _ Store.requested p q h = subst IsConsistent (cc) c
  cancel_switch-IsConsistent _ CancellationStatus.rejected p q h = subst IsConsistent (cc) c
  cancel_switch-IsConsistent Store.pending_confirmation _ p q h =
      cancel_pending-IsConsistent p (ground arith) h
  cancel_switch-IsConsistent Store.accepted Store.no_cancellation p q h =
      request_cancellation-IsConsistent p (ground arith) h
  cancel_switch-IsConsistent Store.accepted Store.failed p q h =
      request_cancellation-IsConsistent p (ground arith) h
  cancel_switch-IsConsistent _ _ p q h = cc

cancel_order_tx-IsConsistent :
    (env : Env) (order_id token_hash : Text) (db : Db)
    → IsConsistent db
    → (a : Order) (db' : Db) → cancel_order_tx env order_id token_hash db ≡ ok (a, db')
    → IsConsistent db'
unfolding cancel_order_tx
cancel_order_tx-IsConsistent env order_id token_hash db c a db' h =
    elim (Option-cases (env.uuid_in order_id)) [
      | inl bad ↦ absurd (ground arith)
      | inr (id, e) ↦ elim (Option-cases (find_row (has_access id token_hash) db.orders)) [
        | inl missing ↦ absurd (ground arith)
        | inr (row, found) ↦
            cancel_switch-IsConsistent env id c
              (find_row-has_access id token_hash db.orders c.keyed found) row.status
              row.cancellation_status refl refl (ground arith)
      ]
    ]

-- A cancellation by the customer keeps the agreement of orders and jobs, whatever its outcome.
pub cancel_order-IsConsistent :
    (env : Env) (order_id token_hash : Text) (db : Db)
    → IsConsistent db
    → IsConsistent (cancel_order env order_id token_hash db).db
unfolding cancel_order
cancel_order-IsConsistent env order_id token_hash db c =
    transaction_keeps IsConsistent env (cancel_order_tx env order_id token_hash) db c
      (cancel_order_tx-IsConsistent env order_id token_hash db c)
