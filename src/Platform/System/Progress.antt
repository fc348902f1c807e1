-- ===== src/Platform/System/Progress.antt =====
-- What a round of the worker brings about where the server does not fail.
use avito_kitchen.Base.{
  ℕ, ◌≡◌, refl, sym, subst, Bool, true, false, some, Text, find_row, update_where, count_where,
  arith, Option-cases, Bool-cases, inl, inr, ◌⊎◌,
}
use avito_kitchen.Platform.Store.{OrderRow, OutboxRow, Db, Env, Fault}
use avito_kitchen.Platform.Store
use avito_kitchen.Platform.Domain.{OutboxJob, VenueOrderDecision}
use avito_kitchen.Platform.Orders.{has_id, insert_order_history}
use avito_kitchen.Platform.Outbox.{claim_outbox, is_leased}
use avito_kitchen.Platform.Outbox.Finish.{
  resolve_outbox_tx, resolve_outbox, retry_outbox_tx, retry_outbox, give_up, decided_row,
  expired_row, is_pending_order,
}
use avito_kitchen.Platform.Consistency.{IsConsistent, IsIssued, seen, seen-update_guarded}
use avito_kitchen.Platform.Consistency.Finishing.{
  claim_outbox-IsConsistent, resolve_outbox_tx-tables, give_up-tables,
}
use avito_kitchen.Platform.Consistency.Working.{claim_outbox-IsIssued}
use avito_kitchen.Platform.Run.{transaction-commits}
use avito_kitchen.Platform.Worker.{Round, process_one, deliver, finish_retry_at, is_expired}
use avito_kitchen.Platform.System.Leased.{claim_outbox-leased}
use avito_kitchen.Platform.System.Jobs.{AreDistinct, AreDistinct-AreKeyed}
use avito_kitchen.Shared.Transaction.{ok, Result-cases}

-- A server that does not fail, with an identifier for the history.
pub record IsSmooth (env : Env) : Type 0 where
  pub works : (f : Fault) → env.fails f ≡ false
  pub id : Text
  pub generates : env.uuid 0 ≡ some id

module _ (env : Env) (smooth : IsSmooth env) (job : OutboxJob) (db : Db)
    (one : count_where (is_leased job) db.outbox ≡ 1) where
  resolve_outbox_tx-ok :
      (decision : VenueOrderDecision)
      → (db' : Db) × (resolve_outbox_tx env job decision db ≡ ok (tt, db'))
  unfolding resolve_outbox_tx insert_order_history
  resolve_outbox_tx-ok decision = elim (Result-cases (resolve_outbox_tx env job decision db)) [
    | inl ((_, db'), f) ↦ (db', f)
    | inr (e, f) ↦ absurd (
        ground (
          arith,
          smooth.works Store.lock_order_decision,
          smooth.works Store.complete_outbox_job,
          smooth.works Store.apply_venue_decision,
          smooth.works Store.record_venue_decision,
          smooth.generates,
        ))
  ]

  give_up-ok :
      job.event_type ≡ Store.confirm_order
      → (available_at : ℕ)
      → (db' : Db) × (retry_outbox_tx env job available_at true db ≡ ok (tt, db'))
  unfolding retry_outbox_tx give_up insert_order_history
  give_up-ok confirms available_at =
      elim (Result-cases (retry_outbox_tx env job available_at true db)) [
        | inl ((_, db'), f) ↦ (db', f)
        | inr (e, f) ↦ absurd (
            ground (
              arith,
              smooth.works Store.lock_order_retry,
              smooth.works Store.expire_outbox_job,
              smooth.works Store.expire_confirmation,
              smooth.works Store.record_expiration,
              smooth.generates,
            ))
      ]

abbrev is_pending_at : Text → Db → Bool
is_pending_at id db = seen (λ o. Store.is_pending o.status) false id db.orders

-- An update of the pending rows of one order to another status leaves none pending.
settled_order :
    (id : Text) (f : OrderRow → OrderRow) (db db' : Db)
    → ((r : OrderRow) → (f r).id ≡ r.id)
    → ((r : OrderRow) → Store.is_pending (f r).status ≡ false)
    → db'.orders ≡ update_where (is_pending_order id) f db.orders
    → is_pending_at id db' ≡ false
settled_order id f db db' keeps leaves e =
    rw
      (
        e,
        seen-update_guarded (λ o. Store.is_pending o.status) false f keeps id id
            (λ r. Store.is_pending r.status) db.orders,
      )
      (elim (Option-cases (find_row (has_id id) db.orders)) [
        | inl absent ↦ ground arith
        | inr (o, found) ↦ ground (arith, leaves o)
      ])

module _ (env : Env) (smooth : IsSmooth env) (job : OutboxJob) (db : Db)
    (one : count_where (is_leased job) db.outbox ≡ 1) (c : IsConsistent db)
    (issued : IsIssued job db) where
  resolve_outbox-settles :
      (decision : VenueOrderDecision)
      → is_pending_at job.order_id (resolve_outbox env job decision db).db ≡ false
  unfolding resolve_outbox
  resolve_outbox-settles decision =
      let (db', done) = resolve_outbox_tx-ok env smooth job db one decision in
      let (_, _, e) = resolve_outbox_tx-tables env job c issued decision done in
      let committed =
        transaction-commits env (resolve_outbox_tx env job decision) db tt db' smooth.works done in
      subst (λ o. is_pending_at job.order_id o.db ≡ false) (sym committed)
        (settled_order job.order_id (decided_row env.now decision) db db' (λ r. refl)
          (λ r. ground arith) e)

  give_up-settles :
      job.event_type ≡ Store.confirm_order
      → (available_at : ℕ)
      → is_pending_at job.order_id (retry_outbox env job available_at true db).db ≡ false
  unfolding retry_outbox
  give_up-settles confirms available_at =
      let (db', done) = give_up-ok env smooth job db one confirms available_at in
      let (_, _, ends) = give_up-tables env job c issued available_at done in
      let committed =
        transaction-commits env (retry_outbox_tx env job available_at true) db tt db' smooth.works
          done in
      elim ends [
        | inl (cancels, _) ↦ absurd (ground arith)
        | inr (_, e) ↦
            subst (λ o. is_pending_at job.order_id o.db ≡ false) (sym committed)
              (settled_order job.order_id (expired_row env.now) db db' (λ r. refl) (λ r. refl) e)
      ]

-- A round of the worker that claims the confirmation of an order ends with that order no longer
-- pending, where the venue answers with a decision or the deadline has passed, nobody else changes
-- the database meanwhile, the server does not fail at the end of the round, and orders and jobs
-- agree and no two jobs share an identifier before it.
pub process_one-settles :
    (w : Round) (db : Db) {job : OutboxJob} {claimed : Db}
    → IsConsistent db
    → AreDistinct db.outbox
    → claim_outbox w.claim_env w.lease db ≡ ok (job, claimed)
    → job.event_type ≡ Store.confirm_order
    → (is_expired w.now job ≡ true) ⊎ ((d : VenueOrderDecision) × (w.decide job ≡ ok d))
    → w.others claimed ≡ claimed
    → IsSmooth w.finish_env
    → seen (λ o. Store.is_pending o.status) false job.order_id (process_one w db).1.orders ≡ false
unfolding process_one deliver finish_retry_at
process_one-settles w db {job} {claimed} c distinct h confirms ends alone smooth =
    let one = claim_outbox-leased w.claim_env w.lease db distinct h in
    let kept = claim_outbox-IsConsistent w.claim_env w.lease db c h in
    let issued =
      claim_outbox-IsIssued w.claim_env w.lease db job claimed
        (AreDistinct-AreKeyed db.outbox distinct) h in
    let P = λ (d : Db). is_pending_at job.order_id d ≡ false in
    elim (Bool-cases (is_expired w.now job)) [
      | inl late ↦
          let done =
            give_up-settles w.finish_env smooth job claimed one kept issued confirms w.now in
          subst P {x = (retry_outbox w.finish_env job w.now true claimed).db}
            {y = (process_one w db).1} (ground arith) done
      | inr timely ↦ elim ends [
        | inl late ↦ absurd (ground arith)
        | inr (d, answered) ↦
            let done = resolve_outbox-settles w.finish_env smooth job claimed one kept issued d in
            subst P {x = (resolve_outbox w.finish_env job d claimed).db} {y = (process_one w db).1}
              (ground arith) done
      ]
    ]
