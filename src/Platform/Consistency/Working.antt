-- ===== src/Platform/Consistency/Working.antt =====
-- Orders and jobs over a round of the worker: `processOne` of
-- internal/platform/service/outbox.go.
use avito_kitchen.Base.{
  ℕ, ◌≡◌, ap, List, arith, Option-cases, inl, inr, All, order_by-All, first-All, select_keeps-All,
  update_where-All, find_row, update_where, same,
}
use avito_kitchen.Platform.Store.{OutboxRow, Db, Env}
use avito_kitchen.Platform.Store
use avito_kitchen.Platform.Domain.{OutboxJob}
use avito_kitchen.Platform.Orders.{has_id}
use avito_kitchen.Platform.Outbox.{claim_outbox, next_job, is_candidate, lease_row}
use avito_kitchen.Platform.Consistency.{IsIssued}
use avito_kitchen.Shared.Transaction.{ok}

-- The primary key of `outbox`: rows with one identifier are one row.
abbrev pub AreKeyed : List OutboxRow → Type 0
AreKeyed xs = All (λ (r : OutboxRow). All (λ (s : OutboxRow). s.id ≡ r.id → s ≡ r) xs) xs

-- A job that a worker claims names the order and the type of its row, where no two jobs share an
-- identifier.
pub claim_outbox-IsIssued :
    (env : Env) (lease : ℕ) (db : Db) (job : OutboxJob) (db' : Db)
    → AreKeyed db.outbox
    → claim_outbox env lease db ≡ ok (job, db')
    → IsIssued job db'
unfolding claim_outbox next_job
claim_outbox-IsIssued env lease db job db' keyed h = elim (Option-cases (next_job env.now db)) [
  | inl idle ↦ absurd (ground arith)
  | inr (row, e) ↦
      let P = λ (r : OutboxRow). All (λ (s : OutboxRow). s.id ≡ r.id → s ≡ r) db.outbox in
      let own =
        first-All P _
          (order_by-All P OutboxRow.available_at _ (
            order_by-All P OutboxRow.created_at _
              (select_keeps-All P (is_candidate env.now db) db.outbox keyed)))
          e in
      elim (Option-cases (find_row (has_id row.aggregate_id) db.orders)) [
        | inl lost ↦ absurd (ground arith)
        | inr (order, found) ↦
            let id : job.id ≡ row.id = ground arith in
            let of_order : job.order_id ≡ row.aggregate_id = ground arith in
            let type : job.event_type ≡ row.event_type = ground arith in
            let lease_it = lease_row env.now lease job.lock_token in
            let outbox : db'.outbox ≡ update_where (λ r. same r.id row.id) lease_it db.outbox =
              ground arith in
            record {
              named =
                  rw (outbox, id, of_order, type)
                    (update_where-All (λ s. s.id ≡ row.id → s ≡ row) _ (λ r. same r.id row.id)
                      lease_it
                      (λ s is e. (ap OutboxRow.aggregate_id (is e), ap OutboxRow.event_type (is e)))
                      (λ s is e. (ap OutboxRow.aggregate_id (is e), ap OutboxRow.event_type (is e)))
                      db.outbox own);
            }
      ]
]
