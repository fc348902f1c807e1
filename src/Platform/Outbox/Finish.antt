-- ===== src/Platform/Outbox/Finish.antt =====
-- The three ends of a claimed job: internal/platform/repository/outbox.go after `ClaimOutbox`.
use avito_kitchen.Base.{
  ℕ, Bool, true, false, Option, none, some, Text, codes, ◌==◌, same, ◌&&◌, if◌then◌else◌,
  update_where, count_where, find_row,
}
use avito_kitchen.Platform.Store.{
  OrderStatus, CancellationStatus, JobType, OrderRow, OutboxRow, Db, Env, RepoError, Fault,
  internal,
}
use avito_kitchen.Platform.Store
use avito_kitchen.Platform.Domain.{
  OutboxJob, VenueOrderDecision, Verdict, accepted_order, rejected_order, VenueCancellationDecision,
  CancellationVerdict, cancelled_order, refused_cancellation,
}
use avito_kitchen.Platform.Orders.{
  has_id, cancelled_row, cancellation_row, insert_order_history, nullif_empty,
}
use avito_kitchen.Platform.Outbox.{update_leased, processed}
use avito_kitchen.Platform.Run.{Tx, run, transaction}
use avito_kitchen.Shared.Transaction.{ok, err, Outcome, ◌>>=◌, ◌>>◌}

-- `WHERE id=$1 AND status='pending_confirmation'`.
abbrev pub is_pending_order : Text → OrderRow → Bool
is_pending_order id r = same r.id id && Store.is_pending r.status

-- `status`, `externalOrderID` and `reason`, as the decision sets them.
abbrev pub decided_status : Verdict → OrderStatus
decided_status accepted_order = Store.accepted
decided_status rejected_order = OrderStatus.rejected

abbrev pub decided_external_id : VenueOrderDecision → Option Text
decided_external_id d = elim d.verdict [
  | accepted_order ↦ some d.external_order_id
  | rejected_order ↦ none
]

abbrev pub decided_reason : VenueOrderDecision → Option Text
decided_reason d = elim d.verdict [ accepted_order ↦ none | rejected_order ↦ nullif_empty d.reason ]

abbrev pub decided_row : ℕ → VenueOrderDecision → OrderRow → OrderRow
decided_row now decision r = record r {
  status = decided_status decision.verdict;
  external_order_id = decided_external_id decision;
  rejection_reason = decided_reason decision;
  updated_at = now;
}

unfoldable pub resolve_outbox_tx : Env → OutboxJob → VenueOrderDecision → Db → Tx (Unit {0})
unfolding insert_order_history
resolve_outbox_tx env job decision db = do
  run env Store.lock_order_decision
  db₁ ← update_leased env Store.complete_outbox_job job (processed env.now) db
  run env Store.apply_venue_decision
  let db₂ = record db₁ {
    orders = update_where (is_pending_order job.order_id) (decided_row env.now decision) db₁.orders;
  }
  if count_where (is_pending_order job.order_id) db₁.orders == 0 then ok (tt, db₂) else (do
    db₃ ←
        insert_order_history env 0 Store.record_venue_decision db₂ job.order_id
          (decided_status decision.verdict) Store.venue (decided_reason decision) env.now
    ok (tt, db₃))

-- `(*Repository).ResolveOutbox`.
unfoldable pub resolve_outbox :
    Env → OutboxJob → VenueOrderDecision → Db → Outcome RepoError (Unit {0}) Db
unfolding resolve_outbox_tx transaction
resolve_outbox env job decision = transaction env (resolve_outbox_tx env job decision)

-- `WHERE id=$1 AND cancellation_status='requested'`.
abbrev pub is_requested_order : Text → OrderRow → Bool
is_requested_order id r = same r.id id && Store.is_requested r.cancellation_status

-- What `ResolveCancellation` does for a cancellation that is still requested.
unfoldable pub apply_cancellation : Env → Text → CancellationVerdict → Db → Tx (Unit {0})
unfolding insert_order_history
apply_cancellation env order_id cancelled_order db = do
  run env Store.apply_successful_cancellation
  db' ←
      insert_order_history env 0 Store.insert_order_history
        (record db { orders = update_where (has_id order_id) (cancelled_row env.now) db.orders })
        order_id Store.cancelled Store.venue (some (codes "cancellation confirmed")) env.now
  ok (tt, db')
apply_cancellation env order_id refused_cancellation db = do
  run env Store.apply_rejected_cancellation
  ok (
    tt,
    record db {
      orders =
          update_where (has_id order_id) (cancellation_row CancellationStatus.rejected env.now)
            db.orders;
    },
  )

unfoldable pub resolve_cancellation_tx :
    Env → OutboxJob → VenueCancellationDecision → Db → Tx (Unit {0})
unfolding apply_cancellation
resolve_cancellation_tx env job decision db = do
  run env Store.lock_cancellation_result
  row ← elim (find_row (has_id job.order_id) db.orders) [
    | none ↦ err (internal Store.lock_cancellation_result)
    | some r ↦ ok r
  ]
  db₁ ← update_leased env Store.complete_cancellation_job job (processed env.now) db
  if Store.is_requested row.cancellation_status
      then apply_cancellation env job.order_id decision.verdict db₁
      else ok (tt, db₁)

-- `(*Repository).ResolveCancellation`.
unfoldable pub resolve_cancellation :
    Env → OutboxJob → VenueCancellationDecision → Db → Outcome RepoError (Unit {0}) Db
unfolding resolve_cancellation_tx transaction
resolve_cancellation env job decision = transaction env (resolve_cancellation_tx env job decision)

-- `SET status='confirmation_expired',updated_at=now()`.
abbrev pub expired_row : ℕ → OrderRow → OrderRow
expired_row now r = record r { status = Store.confirmation_expired; updated_at = now }

-- The end of `RetryOutbox` for a job that is given up.
unfoldable pub give_up : JobType → Env → Text → Db → Tx (Unit {0})
unfolding insert_order_history
give_up Store.cancel_order env order_id db = do
  run env Store.fail_cancellation
  ok (
    tt,
    record db {
      orders =
          update_where (is_requested_order order_id) (cancellation_row Store.failed env.now)
            db.orders;
    },
  )
give_up Store.confirm_order env order_id db = do
  run env Store.expire_confirmation
  let db₁ = record db {
    orders = update_where (is_pending_order order_id) (expired_row env.now) db.orders;
  }
  if count_where (is_pending_order order_id) db.orders == 0 then ok (tt, db₁) else (do
    db₂ ←
        insert_order_history env 0 Store.record_expiration db₁ order_id Store.confirmation_expired
          Store.platform (some (codes "confirmation deadline exceeded")) env.now
    ok (tt, db₂))

abbrev pub last_error_of : JobType → Text
last_error_of Store.cancel_order = codes "cancellation delivery failed"
last_error_of Store.confirm_order = codes "confirmation expired"

-- `SET available_at=$3,locked_until=NULL,lock_token=NULL`.
abbrev pub rescheduled : ℕ → OutboxRow → OutboxRow
rescheduled at r = record r { available_at = at; locked_until = none; lock_token = none }

-- `SET processed_at=now(),last_error=$3,locked_until=NULL,lock_token=NULL`.
abbrev pub given_up : ℕ → JobType → OutboxRow → OutboxRow
given_up now type r = record r {
  processed_at = some now;
  last_error = some (last_error_of type);
  locked_until = none;
  lock_token = none;
}

unfoldable pub retry_outbox_tx : Env → OutboxJob → ℕ → Bool → Db → Tx (Unit {0})
unfolding give_up
retry_outbox_tx env job available_at false db = do
  run env Store.lock_order_retry
  db' ← update_leased env Store.reschedule_outbox_job job (rescheduled available_at) db
  ok (tt, db')
retry_outbox_tx env job available_at true db = do
  run env Store.lock_order_retry
  db' ← update_leased env Store.expire_outbox_job job (given_up env.now job.event_type) db
  give_up job.event_type env job.order_id db'

-- `(*Repository).RetryOutbox`.
unfoldable pub retry_outbox : Env → OutboxJob → ℕ → Bool → Db → Outcome RepoError (Unit {0}) Db
unfolding retry_outbox_tx transaction
retry_outbox env job available_at terminal =
    transaction env (retry_outbox_tx env job available_at terminal)
