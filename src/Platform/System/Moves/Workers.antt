-- ===== src/Platform/System/Moves/Workers.antt =====
-- Moves under `ClaimOutbox`, `ResolveOutbox`, `ResolveCancellation` and `RetryOutbox` of
-- internal/platform/repository/outbox.go.
use avito_kitchen.Base.{ℕ, ◌≡◌, refl, Bool, true, false, same, arith, inl, inr}
use avito_kitchen.Platform.Store.{JobType, OutboxRow, Db, Env, is_pending, is_requested}
use avito_kitchen.Platform.Store
use avito_kitchen.Platform.Domain.{OutboxJob, VenueOrderDecision, VenueCancellationDecision}
use avito_kitchen.Platform.Orders.{cancellation_row}
use avito_kitchen.Platform.Outbox.{claim_outbox, is_leased, lease_row, processed}
use avito_kitchen.Platform.Outbox.Finish.{
  decided_row, expired_row, rescheduled, given_up, resolve_outbox_tx, resolve_outbox,
  resolve_cancellation_tx, resolve_cancellation, retry_outbox_tx, retry_outbox,
}
use avito_kitchen.Platform.Consistency.{IsConsistent, IsIssued, transaction_keeps}
use avito_kitchen.Platform.Consistency.Finishing.{
  claim_outbox-tables, resolve_outbox_tx-tables, resolve_cancellation_tx-tables,
  retry_outbox_tx-tables, give_up-tables, cancellation_outcome, leased,
}
use avito_kitchen.Platform.System.Jobs.{updated}
use avito_kitchen.Platform.System.Machine.{
  by_decision, by_cancellation_decision, by_retry, by_nobody,
}
use avito_kitchen.Platform.System.Moves.{
  Advances, refl-Advances, unmoved-Advances, update_id-Advances, update_guarded-Advances,
}
use avito_kitchen.Shared.Transaction.{ok}

pub claim_outbox-Advances :
    (env : Env) (lease : ℕ) (db : Db) {job : OutboxJob} {db' : Db}
    → claim_outbox env lease db ≡ ok (job, db')
    → Advances by_nobody db db'
claim_outbox-Advances env lease db {job} h =
    let (e, f) = claim_outbox-tables env lease db h in
    unmoved-Advances e (
      updated (λ r. same r.id job.id) (lease_row env.now lease job.lock_token)
        (λ r. record { id = refl; aggregate_id = refl; event_type = refl }) f)

module _ (env : Env) (job : OutboxJob) {db db' : Db} (c : IsConsistent db)
    (issued : IsIssued job db) where
  resolve_outbox_tx-Advances :
      (decision : VenueOrderDecision)
      → resolve_outbox_tx env job decision db ≡ ok (tt, db')
      → Advances by_decision db db'
  resolve_outbox_tx-Advances decision h =
      let (one, f, e) = resolve_outbox_tx-tables env job c issued decision h in
      update_guarded-Advances job.order_id (decided_row env.now decision) (λ r. refl)
        (updated (is_leased job) (processed env.now)
          (λ r. record { id = refl; aggregate_id = refl; event_type = refl }) f)
        (λ r. is_pending r.status) e (λ o found pending. ground arith)

  resolve_cancellation_tx-Advances :
      (decision : VenueCancellationDecision)
      → job.event_type ≡ Store.cancel_order
      → resolve_cancellation_tx env job decision db ≡ ok (tt, db')
      → Advances by_cancellation_decision db db'
  resolve_cancellation_tx-Advances decision cancels h =
      let (one, f, e) = resolve_cancellation_tx-tables env job c issued decision h in
      let at = leased job (processed env.now) (λ r. refl) c issued one in
      elim e [
        | inl quiet ↦ absurd (ground (arith, at Store.cancel_order job.order_id))
        | inr e' ↦
            update_id-Advances job.order_id (cancellation_outcome env.now decision.verdict)
              (λ r. ground arith)
              (updated (is_leased job) (processed env.now)
                (λ r. record { id = refl; aggregate_id = refl; event_type = refl }) f)
              e' (λ o found. ground (arith, at Store.cancel_order job.order_id))
      ]

  retry_outbox_tx-Advances :
      (available_at : ℕ) (terminal : Bool)
      → retry_outbox_tx env job available_at terminal db ≡ ok (tt, db')
      → Advances by_retry db db'
  retry_outbox_tx-Advances available_at false h =
      let (f, e) = retry_outbox_tx-tables env job c issued available_at h in
      unmoved-Advances e (
        updated (is_leased job) (rescheduled available_at)
          (λ r. record { id = refl; aggregate_id = refl; event_type = refl }) f)
  retry_outbox_tx-Advances available_at true h =
      let (one, f, e) = give_up-tables env job c issued available_at h in
      let jobs =
        updated (is_leased job) (given_up env.now job.event_type)
          (λ r. record { id = refl; aggregate_id = refl; event_type = refl }) f in
      elim e [
        | inl (cancels, e') ↦
            update_guarded-Advances job.order_id (cancellation_row Store.failed env.now) (λ r. refl)
              jobs (λ r. is_requested r.cancellation_status) e' (λ o found wanted. ground arith)
        | inr (confirms, e') ↦
            update_guarded-Advances job.order_id (expired_row env.now) (λ r. refl) jobs
              (λ r. is_pending r.status) e' (λ o found pending. ground arith)
      ]

module _ (env : Env) (job : OutboxJob) (db : Db) (c : IsConsistent db)
    (issued : IsIssued job db) where
  pub resolve_outbox-Advances :
      (decision : VenueOrderDecision)
      → Advances by_decision db (resolve_outbox env job decision db).db
  unfolding resolve_outbox
  resolve_outbox-Advances decision =
      transaction_keeps (Advances by_decision db) env (resolve_outbox_tx env job decision) db
        (refl-Advances _ db) λ a db' h. resolve_outbox_tx-Advances env job c issued decision h

  pub resolve_cancellation-Advances :
      (decision : VenueCancellationDecision)
      → job.event_type ≡ Store.cancel_order
      → Advances by_cancellation_decision db (resolve_cancellation env job decision db).db
  unfolding resolve_cancellation
  resolve_cancellation-Advances decision cancels =
      transaction_keeps (Advances by_cancellation_decision db) env
        (resolve_cancellation_tx env job decision) db (refl-Advances _ db)
        λ a db' h. resolve_cancellation_tx-Advances env job c issued decision cancels h

  pub retry_outbox-Advances :
      (available_at : ℕ) (terminal : Bool)
      → Advances by_retry db (retry_outbox env job available_at terminal db).db
  unfolding retry_outbox
  retry_outbox-Advances available_at terminal =
      transaction_keeps (Advances by_retry db) env (retry_outbox_tx env job available_at terminal)
        db (refl-Advances _ db)
        λ a db' h. retry_outbox_tx-Advances env job c issued available_at terminal h
