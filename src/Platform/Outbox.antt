-- ===== src/Platform/Outbox.antt =====
-- Jobs for the venue under leases: internal/platform/repository/outbox.go.
pub mod Finish
use avito_kitchen.Base.{
  ℕ, suc, ◌+◌, Bool, true, false, Option, none, some, List, [], ◌∷◌, Text, codes, ◌==◌, same, ltb,
  leb, ◌&&◌, ◌||◌, if◌then◌else◌, is_none, select, find_row, update_where, count_where, order_by,
}
use avito_kitchen.Platform.Store.{
  OrderStatus, CancellationStatus, JobType, OrderRow, OutboxRow, Db, Env, RepoError, Fault,
}
use avito_kitchen.Platform.Store
use avito_kitchen.Platform.Domain.{
  OutboxJob, VenueOrderDecision, Verdict, accepted_order, rejected_order, VenueCancellationDecision,
  CancellationVerdict, cancelled_order, refused_cancellation,
}
use avito_kitchen.Platform.Orders.{has_id, insert_order_history, nullif_empty}
use avito_kitchen.Platform.Run.{Tx, run, new_uuid, transaction}
use avito_kitchen.Shared.Transaction.{Result, ok, err, refuse, guard, Outcome, ◌>>=◌, ◌>>◌}

-- `locked_until IS NULL OR locked_until < now()`.
abbrev pub lease_is_over : ℕ → Option ℕ → Bool
lease_is_over now none = true
lease_is_over now (some t) = ltb t now

-- The two pairs of a job's type and the state of its order.
abbrev pub is_wanted : JobType → OrderRow → Bool
is_wanted Store.confirm_order o = Store.is_pending o.status
is_wanted Store.cancel_order o = Store.is_requested o.cancellation_status

-- The join with `orders`, and the conditions of `candidate`.
abbrev pub is_candidate : ℕ → Db → OutboxRow → Bool
is_candidate now db r =
    is_none r.processed_at
    && leb r.available_at now
    && lease_is_over now r.locked_until
    && elim (find_row (has_id r.aggregate_id) db.orders) [
      | none ↦ false
      | some o ↦ is_wanted r.event_type o
    ]

-- `ORDER BY o.available_at,o.created_at … LIMIT 1`.
unfoldable pub next_job : ℕ → Db → Option OutboxRow
next_job now db =
    find_row (λ r. true)
      (order_by OutboxRow.available_at
        (order_by OutboxRow.created_at (select (is_candidate now db) db.outbox)))

-- `SET locked_until=now()+lease,lock_token=$2,attempts=attempts+1`.
abbrev pub lease_row : ℕ → ℕ → Text → OutboxRow → OutboxRow
lease_row now lease token r = record r {
  locked_until = some (now + lease);
  lock_token = some token;
  attempts = r.attempts + 1;
}

-- `RETURNING` and `Scan`.
abbrev pub job_of_row : OutboxRow → OrderRow → Text → OutboxJob
job_of_row r o token = record {
  id = r.id;
  order_id = r.aggregate_id;
  event_type = r.event_type;
  lock_token = token;
  payload = r.payload;
  attempts = r.attempts + 1;
  confirmation_deadline = o.confirmation_deadline;
  expected_items_amount = o.items_amount;
  currency = o.currency;
}

-- `(*Repository).ClaimOutbox`: one statement, so no transaction of the program's own.
unfoldable pub claim_outbox : Env → ℕ → Db → Result RepoError (OutboxJob × Db)
unfolding next_job
claim_outbox env lease db = do
  token ← new_uuid env 0
  run env Store.claim_outbox_job
  row ← elim (next_job env.now db) [ none ↦ err Store.no_outbox_job | some r ↦ ok r ]
  order ← elim (find_row (has_id row.aggregate_id) db.orders) [
    | none ↦ err Store.no_outbox_job
    | some o ↦ ok o
  ]
  ok (
    job_of_row row order token,
    record db {
      outbox = update_where (λ r. same r.id row.id) (lease_row env.now lease token) db.outbox;
    },
  )

abbrev pub holds_token : Text → Option Text → Bool
holds_token token none = false
holds_token token (some t) = same t token

-- `WHERE id=$1 AND lock_token=$2 AND processed_at IS NULL`.
abbrev pub is_leased : OutboxJob → OutboxRow → Bool
is_leased job r =
    same r.id job.id && holds_token job.lock_token r.lock_token && is_none r.processed_at

-- `SET processed_at=now(),locked_until=NULL,lock_token=NULL`.
abbrev pub processed : ℕ → OutboxRow → OutboxRow
processed now r = record r { processed_at = some now; locked_until = none; lock_token = none }

-- An update of the leased row, and the test of `RowsAffected`.
abbrev pub update_leased :
    Env → Fault → OutboxJob → (OutboxRow → OutboxRow) → Db → Result RepoError Db
update_leased env fault job f db = do
  run env fault
  guard (count_where (is_leased job) db.outbox == 1) Store.outbox_lease_lost
  ok (record db { outbox = update_where (is_leased job) f db.outbox })
