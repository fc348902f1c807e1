-- ===== src/Platform/System/Invariant.antt =====
-- What holds of every reachable world of the platform.
use avito_kitchen.Base.{
  ℕ, ◌⊎◌, ◌≡◌, true, List, [], ◌∷◌, exists_row, arith, inl, inr, Option-cases, All,
  select_keeps-All, weaken-All, order_by-All, first-All,
}
use avito_kitchen.Platform.Store.{OutboxRow, Db, Env}
use avito_kitchen.Platform.Domain.{OutboxJob}
use avito_kitchen.Platform.Outbox.{claim_outbox, next_job, is_candidate}
use avito_kitchen.Platform.Consistency.{IsConsistent, IsIssued}
use avito_kitchen.Platform.Consistency.Cancelling.{cancel_order-IsConsistent}
use avito_kitchen.Platform.Consistency.Placing.{create_order-IsConsistent}
use avito_kitchen.Platform.Consistency.Recording.{record_order_event-IsConsistent}
use avito_kitchen.Platform.Consistency.Working.{claim_outbox-IsIssued}
use avito_kitchen.Platform.Consistency.Finishing.{
  claim_outbox-IsConsistent, resolve_outbox-IsConsistent, resolve_cancellation-IsConsistent,
  retry_outbox-IsConsistent,
}
use avito_kitchen.Platform.System.{
  World, IsHeld, first, later, Step, creates, cancels, claims, resolves, resolves_cancellation,
  retries, records, replaces_menu, updates_availability, Reach, here, next,
}
use avito_kitchen.Platform.System.Jobs.{
  AreDistinct, AreDistinct-AreKeyed, IsNamed, is_job, OutboxChange-AreDistinct,
  OutboxChange-IsNamed, OutboxChange-present,
}
use avito_kitchen.Platform.System.Machine.{
  Actor, by_checkout, by_customer, by_decision, by_cancellation_decision, by_retry, by_callback,
  by_nobody,
}
use avito_kitchen.Platform.System.Moves.{Advances}
use avito_kitchen.Platform.System.Moves.Customers.{create_order-Advances, cancel_order-Advances}
use avito_kitchen.Platform.System.Moves.Workers.{
  claim_outbox-Advances, resolve_outbox-Advances, resolve_cancellation-Advances,
  retry_outbox-Advances,
}
use avito_kitchen.Platform.System.Moves.Partners.{
  record_order_event-Advances, replace_menu-orders, update_availability-orders,
  same_orders-Advances, same_orders-IsConsistent,
}
use avito_kitchen.Shared.Transaction.{ok}

-- Who makes a step.
abbrev pub actor : {w v : World} → Step w v → Actor
actor (creates _ _) = by_checkout
actor (cancels _ _ _) = by_customer
actor (claims _ _ _) = by_nobody
actor (resolves _ _ _ _ _) = by_decision
actor (resolves_cancellation _ _ _ _ _) = by_cancellation_decision
actor (retries _ _ _ _ _) = by_retry
actor (records _ _ _ _) = by_callback
actor (replaces_menu _ _ _ _ _) = by_nobody
actor (updates_availability _ _ _ _) = by_nobody

-- Orders and jobs agree, no two jobs share an identifier, and a claimed job says what its row says.
pub record IsInvariant (w : World) : Type 0 where
  pub consistent : IsConsistent w.db
  pub distinct : AreDistinct w.db.outbox
  pub named : (job : OutboxJob) → IsHeld job w.held → IsNamed job w.db.outbox

own_row-present :
    (xs : List OutboxRow) → All (λ (r : OutboxRow). exists_row (is_job r.id) xs ≡ true) xs
own_row-present [] = tt
own_row-present (x ∷ xs) =
    (ground arith, weaken-All _ _ (λ r h. ground arith) xs (own_row-present xs))

-- A claimed job has a row.
claim_outbox-present :
    (env : Env) (lease : ℕ) (db : Db) {job : OutboxJob} {db' : Db}
    → claim_outbox env lease db ≡ ok (job, db')
    → exists_row (is_job job.id) db.outbox ≡ true
unfolding claim_outbox next_job
claim_outbox-present env lease db {job} {db'} h = elim (Option-cases (next_job env.now db)) [
  | inl idle ↦ absurd (ground arith)
  | inr (row, e) ↦
      let P = λ (r : OutboxRow). exists_row (is_job r.id) db.outbox ≡ true in
      let own =
        first-All P _
          (order_by-All P OutboxRow.available_at _ (
            order_by-All P OutboxRow.created_at _
              (select_keeps-All P (is_candidate env.now db) db.outbox (own_row-present db.outbox))))
          e in
      let id : job.id ≡ row.id = ground arith in rw id own
]

module _ {w : World} (i : IsInvariant w) where
  issued : (job : OutboxJob) → IsHeld job w.held → IsIssued job w.db
  issued job held = record { named = (i.named job held).named }

  -- Every step moves every order as the abstract machine does, or not at all.
  pub Step-Advances : {v : World} (s : Step w v) → Advances (actor s) w.db v.db
  Step-Advances (creates env command) = create_order-Advances env command w.db
  Step-Advances (cancels env order_id token_hash) =
      cancel_order-Advances env order_id token_hash w.db i.consistent
  Step-Advances (claims env lease h) = claim_outbox-Advances env lease w.db h
  Step-Advances (resolves env job decision held confirms) =
      resolve_outbox-Advances env job w.db i.consistent (issued job held) decision
  Step-Advances (resolves_cancellation env job decision held withdraws) =
      resolve_cancellation-Advances env job w.db i.consistent (issued job held) decision withdraws
  Step-Advances (retries env job available_at terminal held) =
      retry_outbox-Advances env job w.db i.consistent (issued job held) available_at terminal
  Step-Advances (records env venue_id order_id event) =
      record_order_event-Advances env venue_id order_id event w.db i.consistent
  Step-Advances (replaces_menu env item_ids venue_id snapshot hash) =
      same_orders-Advances (replace_menu-orders env item_ids venue_id snapshot hash w.db)
  Step-Advances (updates_availability env venue_id update h) =
      same_orders-Advances (update_availability-orders env venue_id update w.db h)

  Step-IsConsistent : {v : World} → Step w v → IsConsistent v.db
  Step-IsConsistent (creates env command) = create_order-IsConsistent env command w.db i.consistent
  Step-IsConsistent (cancels env order_id token_hash) =
      cancel_order-IsConsistent env order_id token_hash w.db i.consistent
  Step-IsConsistent (claims env lease h) = claim_outbox-IsConsistent env lease w.db i.consistent h
  Step-IsConsistent (resolves env job decision held confirms) =
      resolve_outbox-IsConsistent env job w.db i.consistent (issued job held) decision confirms
  Step-IsConsistent (resolves_cancellation env job decision held withdraws) =
      resolve_cancellation-IsConsistent env job w.db i.consistent (issued job held) decision
        withdraws
  Step-IsConsistent (retries env job available_at terminal held) =
      retry_outbox-IsConsistent env job w.db i.consistent (issued job held) available_at terminal
  Step-IsConsistent (records env venue_id order_id event) =
      record_order_event-IsConsistent env venue_id order_id event w.db i.consistent
  Step-IsConsistent (replaces_menu env item_ids venue_id snapshot hash) =
      same_orders-IsConsistent i.consistent
        (replace_menu-orders env item_ids venue_id snapshot hash w.db)
  Step-IsConsistent (updates_availability env venue_id update h) =
      same_orders-IsConsistent i.consistent (update_availability-orders env venue_id update w.db h)

  claimed-IsNamed :
      (env : Env) (lease : ℕ) {job : OutboxJob} {db : Db}
      → claim_outbox env lease w.db ≡ ok (job, db)
      → IsNamed job db.outbox
  claimed-IsNamed env lease {job} {db} h = record {
    present =
        OutboxChange-present job.id (claim_outbox-Advances env lease w.db h).jobs
          (claim_outbox-present env lease w.db h);
    named =
        (claim_outbox-IsIssued env lease w.db job db (AreDistinct-AreKeyed w.db.outbox i.distinct)
          h).named;
  }

  -- A job that is held was held before, or has just been claimed.
  Step-held :
      {v : World}
      → Step w v
      → (job : OutboxJob) → IsHeld job v.held
      → IsHeld job w.held ⊎ IsNamed job v.db.outbox
  Step-held (claims env lease h) job first = inr (claimed-IsNamed env lease h)
  Step-held (claims env lease h) job (later held) = inl held
  Step-held (creates _ _) job held = inl held
  Step-held (cancels _ _ _) job held = inl held
  Step-held (resolves _ _ _ _ _) job held = inl held
  Step-held (resolves_cancellation _ _ _ _ _) job held = inl held
  Step-held (retries _ _ _ _ _) job held = inl held
  Step-held (records _ _ _ _) job held = inl held
  Step-held (replaces_menu _ _ _ _ _) job held = inl held
  Step-held (updates_availability _ _ _ _) job held = inl held

  pub Step-IsInvariant : {v : World} → Step w v → IsInvariant v
  Step-IsInvariant s = record {
    consistent = Step-IsConsistent s;
    distinct = OutboxChange-AreDistinct (Step-Advances s).jobs i.distinct;
    named = λ job held. elim (Step-held s job held) [
      | inl before ↦ OutboxChange-IsNamed job (Step-Advances s).jobs (i.named job before)
      | inr claimed ↦ claimed
    ];
  }

pub Reach-IsInvariant : {w v : World} → IsInvariant w → Reach w v → IsInvariant v
Reach-IsInvariant i here = i
Reach-IsInvariant i (next r s) = Step-IsInvariant (Reach-IsInvariant i r) s
