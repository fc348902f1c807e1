-- ===== src/Platform/System/Rounds.antt =====
-- A round of the worker, `processOne` of internal/platform/service/outbox.go, among the steps of
-- the platform.
use avito_kitchen.Base.{ℕ, ◌≡◌, refl, subst, Bool, true, List, ◌∷◌, arith, Bool-cases, inl, inr}
use avito_kitchen.Platform.Store.{JobType, Db}
use avito_kitchen.Platform.Store
use avito_kitchen.Platform.Domain.{OutboxJob}
use avito_kitchen.Platform.Outbox.{claim_outbox}
use avito_kitchen.Platform.Worker.{
  Round, process_one, deliver, finish_retry_at, retry_plan, is_expired,
}
use avito_kitchen.Platform.System.{
  World, IsHeld, first, later, Step, creates, cancels, claims, resolves, resolves_cancellation,
  retries, records, replaces_menu, updates_availability, Reach, here, next,
}
use avito_kitchen.Shared.Transaction.{Result-cases}

Step-IsHeld : {v u : World} → Step v u → (job : OutboxJob) → IsHeld job v.held → IsHeld job u.held
Step-IsHeld (claims _ _ _) job held = later held
Step-IsHeld (creates _ _) job held = held
Step-IsHeld (cancels _ _ _) job held = held
Step-IsHeld (resolves _ _ _ _ _) job held = held
Step-IsHeld (resolves_cancellation _ _ _ _ _) job held = held
Step-IsHeld (retries _ _ _ _ _) job held = held
Step-IsHeld (records _ _ _ _) job held = held
Step-IsHeld (replaces_menu _ _ _ _ _) job held = held
Step-IsHeld (updates_availability _ _ _ _) job held = held

Reach-IsHeld : {v u : World} → Reach v u → (job : OutboxJob) → IsHeld job v.held → IsHeld job u.held
Reach-IsHeld here job held = held
Reach-IsHeld (next r s) job held = Step-IsHeld s job (Reach-IsHeld r job held)

Reach_trans : {w v u : World} → Reach w v → Reach v u → Reach w u
Reach_trans r here = r
Reach_trans r (next t s) = next (Reach_trans r t) s

-- A database that the platform comes to, whatever jobs are held then.
abbrev pub Comes : World → Db → Type 0
Comes v db = (held : List OutboxJob) × Reach v (record { db = db; held = held })

Step-Comes : {v : World} {db : Db} → Step v (record v { db = db }) → Comes v db
Step-Comes {v} s = (v.held, next here s)

module _ (w : Round) (job : OutboxJob) (v : World) (held : IsHeld job v.held) where
  finish_retry_at-Comes :
      (at : ℕ) (terminal : Bool) → Comes v (finish_retry_at w job at terminal v.db)
  unfolding finish_retry_at
  finish_retry_at-Comes at terminal = Step-Comes (retries w.finish_env job at terminal held)

  deliver-Comes : (type : JobType) → job.event_type ≡ type → Comes v (deliver type w job v.db)
  unfolding deliver
  deliver-Comes Store.cancel_order e = elim (Result-cases (w.cancel job)) [
    | inl (decision, f) ↦
        subst (Comes v) (ground arith)
          (Step-Comes (resolves_cancellation w.finish_env job decision held e))
    | inr (failure, f) ↦
        let plan = retry_plan w job failure in
        subst (Comes v) (ground arith) (finish_retry_at-Comes plan.0 plan.1)
  ]
  deliver-Comes Store.confirm_order e = elim (Result-cases (w.decide job)) [
    | inl (decision, f) ↦
        subst (Comes v) (ground arith) (Step-Comes (resolves w.finish_env job decision held e))
    | inr (failure, f) ↦
        let plan = retry_plan w job failure in
        subst (Comes v) (ground arith) (finish_retry_at-Comes plan.0 plan.1)
  ]

-- A whole round of the worker is a sequence of the steps of the platform, where what the others do
-- meanwhile is one.
pub process_one-Comes :
    (w : Round) (v : World)
    → ((u : World) → Comes u (w.others u.db))
    → Comes v (process_one w v.db).1
unfolding process_one
process_one-Comes w v others = elim (Result-cases (claim_outbox w.claim_env w.lease v.db)) [
  | inr (e, failed) ↦ subst (Comes v) (ground arith) (v.held, here)
  | inl ((job, claimed), f) ↦
      let (held, met) = others (record { db = claimed; held = job ∷ v.held }) in
      let meanwhile : World = record { db = w.others claimed; held = held } in
      let mine = Reach-IsHeld met job first in
      let until : Reach v meanwhile = Reach_trans (next here (claims w.claim_env w.lease f)) met in
      elim (Bool-cases (is_expired w.now job)) [
        | inl late ↦
            let (after, finish) = finish_retry_at-Comes w job meanwhile mine w.now true in
            subst (Comes v) (ground arith) (after, Reach_trans until finish)
        | inr timely ↦
            let (after, finish) = deliver-Comes w job meanwhile mine job.event_type refl in
            subst (Comes v) (ground arith) (after, Reach_trans until finish)
      ]
]
