-- ===== src/Platform/Consistency/Finishing.antt =====
-- Orders and jobs under `ClaimOutbox`, `ResolveOutbox`, `ResolveCancellation` and `RetryOutbox` of
-- internal/platform/repository/outbox.go.
use avito_kitchen.Base.{
  ℕ, ◌+◌, ◌≡◌, refl, Bool, true, false, List, [], ◌∷◌, Text, same, ◌&&◌, bit, is_none, update_where,
  count_where, arith, inl, inr, All, ◌∙◌, ◌⊎◌,
}
use avito_kitchen.Platform.Store.{CancellationStatus, JobType, OrderRow, OutboxRow, Db, Env}
use avito_kitchen.Platform.Store
use avito_kitchen.Platform.Domain.{
  OutboxJob, VenueOrderDecision, VenueCancellationDecision, cancelled_order, refused_cancellation,
  CancellationVerdict,
}
use avito_kitchen.Platform.Orders.{has_id, cancelled_row, cancellation_row}
use avito_kitchen.Platform.Outbox.{claim_outbox, is_leased, lease_row, processed}
use avito_kitchen.Platform.Outbox.Finish.{
  is_pending_order, is_requested_order, decided_row, expired_row, rescheduled, given_up,
  resolve_outbox_tx, resolve_outbox, resolve_cancellation_tx, resolve_cancellation, retry_outbox_tx,
  retry_outbox,
}
use avito_kitchen.Platform.Consistency.{
  IsConsistent, IsIssued, seen, wanted_jobs, open_jobs, transaction_keeps, update_id-IsConsistent,
  update_guarded-IsConsistent, open_jobs-update_where, open_jobs-finish,
}
use avito_kitchen.Shared.Transaction.{ok}

-- What a decision on a cancellation makes of its order.
abbrev pub cancellation_outcome : ℕ → CancellationVerdict → OrderRow → OrderRow
cancellation_outcome now cancelled_order = cancelled_row now
cancellation_outcome now refused_cancellation = cancellation_row CancellationStatus.rejected now

-- The leased row is a job of its order, still to be done.
leased-named :
    (job : OutboxJob) (xs : List OutboxRow)
    → All
        (λ (r : OutboxRow).
          r.id ≡ job.id → (r.aggregate_id ≡ job.order_id) × (r.event_type ≡ job.event_type))
        xs
    → All
        (λ (r : OutboxRow).
          is_leased job r ≡ true
          → (r.aggregate_id ≡ job.order_id)
            × (r.event_type ≡ job.event_type)
            × (is_none r.processed_at ≡ true))
        xs
leased-named job [] h = tt
leased-named job (r ∷ rs) h = (λ p. ground (arith, h.0), leased-named job rs h.1)

-- Closing the leased row takes one job from its order, and none from any other.
open_jobs-leased :
    (job : OutboxJob) (f : OutboxRow → OutboxRow) (db : Db)
    → ((r : OutboxRow) → is_none (f r).processed_at ≡ false)
    → IsIssued job db
    → count_where (is_leased job) db.outbox ≡ 1
    → (type : JobType) (id : Text)
    → open_jobs type id (update_where (is_leased job) f db.outbox)
        + bit (same job.order_id id && Store.same_job job.event_type type)
      ≡ open_jobs type id db.outbox
open_jobs-leased job f db done issued one type id = ground (
  arith,
  open_jobs-finish (is_leased job) f job.order_id job.event_type done type id db.outbox
      (leased-named job db.outbox issued.named),
)

pub claim_outbox-tables :
    (env : Env) (lease : ℕ) (db : Db) {job : OutboxJob} {db' : Db}
    → claim_outbox env lease db ≡ ok (job, db')
    → (db'.orders ≡ db.orders)
      × (db'.outbox
          ≡ update_where (λ r. same r.id job.id) (lease_row env.now lease job.lock_token) db.outbox)
unfolding claim_outbox
claim_outbox-tables env lease db h = ground arith

-- A claimed job is leased, but not yet done: its order waits for it as before.
pub claim_outbox-IsConsistent :
    (env : Env) (lease : ℕ) (db : Db) {job : OutboxJob} {db' : Db}
    → IsConsistent db
    → claim_outbox env lease db ≡ ok (job, db')
    → IsConsistent db'
claim_outbox-IsConsistent env lease db {job} c h =
    let (e, f) = claim_outbox-tables env lease db h in
    record {
      keyed = rw e c.keyed;
      sound = λ id. rw e (c.sound id);
      jobs = λ id type.
          rw (e, f)
            (open_jobs-update_where (λ r. same r.id job.id) (lease_row env.now lease job.lock_token)
                (λ r j t. refl) type id db.outbox
              ∙ c.jobs id type);
    }

-- What closing the leased row does to the counts.
pub leased :
    (job : OutboxJob) (f : OutboxRow → OutboxRow) {db : Db}
    → ((r : OutboxRow) → is_none (f r).processed_at ≡ false)
    → IsConsistent db
    → IsIssued job db
    → count_where (is_leased job) db.outbox ≡ 1
    → (type : JobType) (id : Text)
    → open_jobs type id (update_where (is_leased job) f db.outbox)
        + bit (same job.order_id id && Store.same_job job.event_type type)
      ≡ wanted_jobs type id db.orders
leased job f {db} done c issued one type id =
    open_jobs-leased job f db done issued one type id ∙ c.jobs id type

abbrev pub is_requested_at : Text → List OrderRow → Bool
is_requested_at = seen (λ r. Store.is_requested r.cancellation_status) false

module _ (env : Env) (job : OutboxJob) {db db' : Db} (c : IsConsistent db)
    (issued : IsIssued job db) where
  pub resolve_outbox_tx-tables :
      (decision : VenueOrderDecision)
      → resolve_outbox_tx env job decision db ≡ ok (tt, db')
      → (count_where (is_leased job) db.outbox ≡ 1)
        × (db'.outbox ≡ update_where (is_leased job) (processed env.now) db.outbox)
        × (db'.orders
            ≡ update_where (is_pending_order job.order_id) (decided_row env.now decision) db.orders)
  unfolding resolve_outbox_tx
  resolve_outbox_tx-tables decision h = ground arith

  resolve_outbox_tx-IsConsistent :
      (decision : VenueOrderDecision)
      → job.event_type ≡ Store.confirm_order
      → resolve_outbox_tx env job decision db ≡ ok (tt, db')
      → IsConsistent db'
  resolve_outbox_tx-IsConsistent decision confirms h =
      let (one, f, e) = resolve_outbox_tx-tables decision h in
      let at = leased job (processed env.now) (λ r. refl) c issued one in
      update_guarded-IsConsistent c job.order_id (decided_row env.now decision) (λ r. refl)
        (λ r. Store.is_pending r.status) e (ground (arith, c.sound job.order_id))
        λ type id. rw f (ground (arith, at type id, at Store.confirm_order job.order_id))

  pub resolve_cancellation_tx-tables :
      (decision : VenueCancellationDecision)
      → resolve_cancellation_tx env job decision db ≡ ok (tt, db')
      → (count_where (is_leased job) db.outbox ≡ 1)
        × (db'.outbox ≡ update_where (is_leased job) (processed env.now) db.outbox)
        × ((is_requested_at job.order_id db.orders ≡ false)
            ⊎ (db'.orders
                ≡ update_where
                    (has_id job.order_id)
                    (cancellation_outcome env.now decision.verdict)
                    db.orders))
  unfolding resolve_cancellation_tx
  resolve_cancellation_tx-tables decision h = ground arith

  resolve_cancellation_tx-IsConsistent :
      (decision : VenueCancellationDecision)
      → job.event_type ≡ Store.cancel_order
      → resolve_cancellation_tx env job decision db ≡ ok (tt, db')
      → IsConsistent db'
  resolve_cancellation_tx-IsConsistent decision cancels h =
      let (one, f, e) = resolve_cancellation_tx-tables decision h in
      let at = leased job (processed env.now) (λ r. refl) c issued one in
      elim e [
        | inl quiet ↦ absurd (ground (arith, at Store.cancel_order job.order_id))
        | inr e' ↦
            update_id-IsConsistent c job.order_id (cancellation_outcome env.now decision.verdict)
              (λ r. ground arith) e'
              (ground (arith, c.sound job.order_id, at Store.cancel_order job.order_id))
              λ type id. rw f (
                ground
                  (arith, at type id, at Store.cancel_order job.order_id, c.sound job.order_id))
      ]

  pub retry_outbox_tx-tables :
      (available_at : ℕ)
      → retry_outbox_tx env job available_at false db ≡ ok (tt, db')
      → (db'.outbox ≡ update_where (is_leased job) (rescheduled available_at) db.outbox)
        × (db'.orders ≡ db.orders)
  unfolding retry_outbox_tx
  retry_outbox_tx-tables available_at h = ground arith

  pub give_up-tables :
      (available_at : ℕ)
      → retry_outbox_tx env job available_at true db ≡ ok (tt, db')
      → (count_where (is_leased job) db.outbox ≡ 1)
        × (db'.outbox ≡ update_where (is_leased job) (given_up env.now job.event_type) db.outbox)
        × ((job.event_type ≡ Store.cancel_order)
              × (db'.orders
                  ≡ update_where
                      (is_requested_order job.order_id)
                      (cancellation_row Store.failed env.now)
                      db.orders)
            ⊎ (job.event_type ≡ Store.confirm_order)
              × (db'.orders
                  ≡ update_where (is_pending_order job.order_id) (expired_row env.now) db.orders))
  unfolding retry_outbox_tx
  give_up-tables available_at h = ground arith

  retry_outbox_tx-IsConsistent :
      (available_at : ℕ) (terminal : Bool)
      → retry_outbox_tx env job available_at terminal db ≡ ok (tt, db')
      → IsConsistent db'
  retry_outbox_tx-IsConsistent available_at false h =
      let (f, e) = retry_outbox_tx-tables available_at h in
      record {
        keyed = rw e c.keyed;
        sound = λ id. rw e (c.sound id);
        jobs = λ id type.
            rw (e, f)
              (open_jobs-update_where (is_leased job) (rescheduled available_at) (λ r j t. refl)
                  type id db.outbox
                ∙ c.jobs id type);
      }
  retry_outbox_tx-IsConsistent available_at true h =
      let (one, f, e) = give_up-tables available_at h in
      let at = leased job (given_up env.now job.event_type) (λ r. refl) c issued one in
      elim e [
        | inl (cancels, e') ↦
            update_guarded-IsConsistent c job.order_id (cancellation_row Store.failed env.now)
              (λ r. refl) (λ r. Store.is_requested r.cancellation_status) e'
              (ground (arith, c.sound job.order_id))
              λ type id. rw f (
                ground
                  (arith, at type id, at Store.cancel_order job.order_id, c.sound job.order_id))
        | inr (confirms, e') ↦
            update_guarded-IsConsistent c job.order_id (expired_row env.now) (λ r. refl)
              (λ r. Store.is_pending r.status) e' (ground (arith, c.sound job.order_id))
              λ type id. rw f (ground (arith, at type id, at Store.confirm_order job.order_id))
      ]

module _ (env : Env) (job : OutboxJob) (db : Db) (c : IsConsistent db)
    (issued : IsIssued job db) where
  -- The decision of the venue on a job that confirms an order keeps the agreement of orders and
  -- jobs, whatever the outcome, where the job names the order and the type of its row.
  pub resolve_outbox-IsConsistent :
      (decision : VenueOrderDecision)
      → job.event_type ≡ Store.confirm_order
      → IsConsistent (resolve_outbox env job decision db).db
  unfolding resolve_outbox
  resolve_outbox-IsConsistent decision confirms =
      transaction_keeps IsConsistent env (resolve_outbox_tx env job decision) db c
        λ a db' h. resolve_outbox_tx-IsConsistent env job c issued decision confirms h

  -- The decision of the venue on a job that cancels an order keeps the agreement of orders and
  -- jobs, whatever the outcome, where the job names the order and the type of its row.
  pub resolve_cancellation-IsConsistent :
      (decision : VenueCancellationDecision)
      → job.event_type ≡ Store.cancel_order
      → IsConsistent (resolve_cancellation env job decision db).db
  unfolding resolve_cancellation
  resolve_cancellation-IsConsistent decision cancels =
      transaction_keeps IsConsistent env (resolve_cancellation_tx env job decision) db c
        λ a db' h. resolve_cancellation_tx-IsConsistent env job c issued decision cancels h

  -- Putting a job off or giving it up keeps the agreement of orders and jobs, whatever the outcome,
  -- where the job names the order and the type of its row.
  pub retry_outbox-IsConsistent :
      (available_at : ℕ) (terminal : Bool)
      → IsConsistent (retry_outbox env job available_at terminal db).db
  unfolding retry_outbox
  retry_outbox-IsConsistent available_at terminal =
      transaction_keeps IsConsistent env (retry_outbox_tx env job available_at terminal) db c
        λ a db' h. retry_outbox_tx-IsConsistent env job c issued available_at terminal h
