-- ===== src/Venue/Callbacks.antt =====
-- Events for the platform under leases: internal/venue/repository/callbacks.go.
pub mod Order
use avito_kitchen.Base.{
  ℕ, ◌+◌, Bool, true, false, Option, none, some, List, Text, codes, ◌==◌, same, ltb, leb, ◌&&◌, not,
  is_none, if◌then◌else◌, find_row, select, exists_row, update_where, count_where, order_by,
}
use avito_kitchen.Venue.Store.{
  CallbackJob, VenueOrderRow, VenueOutboxRow, Db, Env, RepoError, Fault,
}
use avito_kitchen.Venue.Store
use avito_kitchen.Venue.Lifecycle.{has_id}
use avito_kitchen.Venue.Run.{run, new_uuid}
use avito_kitchen.Shared.Transaction.{Result, ok, err, guard, ◌>>=◌, ◌>>◌}

-- `locked_until IS NULL OR locked_until < now()`.
abbrev pub lease_is_over : ℕ → Option ℕ → Bool
lease_is_over now none = true
lease_is_over now (some t) = ltb t now

-- An event of the same order that comes before, and is not delivered.
abbrev pub is_blocking : VenueOutboxRow → VenueOutboxRow → Bool
is_blocking current earlier =
    same earlier.venue_order_id current.venue_order_id
    && ltb earlier.sequence current.sequence
    && is_none earlier.processed_at

-- The conditions of `candidate`.
abbrev pub is_candidate : ℕ → Db → VenueOutboxRow → Bool
is_candidate now db r =
    is_none r.processed_at
    && leb r.available_at now
    && lease_is_over now r.locked_until
    && not (exists_row (is_blocking r) db.outbox)

-- `ORDER BY current.available_at,current.created_at … LIMIT 1`.
unfoldable pub next_callback : ℕ → Db → Option VenueOutboxRow
next_callback now db =
    find_row (λ r. true)
      (order_by VenueOutboxRow.available_at
        (order_by VenueOutboxRow.created_at (select (is_candidate now db) db.outbox)))

-- `SET locked_until=now()+lease,lock_token=$2,attempts=attempts+1`.
abbrev pub lease_row : ℕ → ℕ → Text → VenueOutboxRow → VenueOutboxRow
lease_row now lease token r = record r {
  locked_until = some (now + lease);
  lock_token = some token;
  attempts = r.attempts + 1;
}

-- `RETURNING` and `Scan`.
abbrev pub job_of_row : VenueOutboxRow → VenueOrderRow → Text → CallbackJob
job_of_row r o token = record {
  id = r.id;
  platform_order_id = o.platform_order_id;
  lock_token = token;
  payload = r.payload;
  attempts = r.attempts + 1;
}

-- `(*Repository).ClaimCallback`.
unfoldable pub claim_callback : Env → ℕ → Db → Result RepoError (CallbackJob × Db)
unfolding next_callback
claim_callback env lease db = do
  token ← new_uuid env 0
  run env Store.claim_callback
  row ← elim (next_callback env.now db) [ none ↦ err Store.no_callback_job | some r ↦ ok r ]
  order ← elim (find_row (has_id row.venue_order_id) db.orders) [
    | none ↦ err Store.no_callback_job
    | some o ↦ ok o
  ]
  ok (
    job_of_row row order token,
    record db {
      outbox = update_where (λ r. same r.id row.id) (lease_row env.now lease token) db.outbox;
    },
  )

abbrev pub holds_token : Text → Option Text → Bool
holds_token token none = false
holds_token token (some t) = same t token

-- `WHERE id=$1 AND lock_token=$2 AND processed_at IS NULL`.
abbrev pub is_leased : CallbackJob → VenueOutboxRow → Bool
is_leased job r =
    same r.id job.id && holds_token job.lock_token r.lock_token && is_none r.processed_at

-- An update of the leased row, and the test of `RowsAffected`. The update stands where it changed
-- another number of rows: these two statements run in no transaction.
abbrev pub update_leased :
    Env
    → Fault
    → CallbackJob
    → (VenueOutboxRow → VenueOutboxRow)
    → Db
    → Result RepoError (Unit {0}) × Db
update_leased env fault job f db = elim (env.fails fault) [
  | true ↦ (err (Store.internal fault), db)
  | false ↦ (
    guard (count_where (is_leased job) db.outbox == 1) Store.callback_lease_lost,
    record db { outbox = update_where (is_leased job) f db.outbox },
  )
]

-- `SET processed_at=now(),locked_until=NULL,lock_token=NULL,last_error=NULL`.
abbrev pub delivered : ℕ → VenueOutboxRow → VenueOutboxRow
delivered now r = record r {
  processed_at = some now;
  locked_until = none;
  lock_token = none;
  last_error = none;
}

-- `(*Repository).CompleteCallback`.
unfoldable pub complete_callback : Env → CallbackJob → Db → Result RepoError (Unit {0}) × Db
complete_callback env job = update_leased env Store.complete_callback job (delivered env.now)

-- `SET available_at=$3,locked_until=NULL,lock_token=NULL,last_error='platform callback failed'`.
abbrev pub put_off : ℕ → VenueOutboxRow → VenueOutboxRow
put_off at r = record r {
  available_at = at;
  locked_until = none;
  lock_token = none;
  last_error = some (codes "platform callback failed");
}

-- `(*Repository).RetryCallback`.
unfoldable pub retry_callback : Env → CallbackJob → ℕ → Db → Result RepoError (Unit {0}) × Db
retry_callback env job available_at =
    update_leased env Store.retry_callback job (put_off available_at)
