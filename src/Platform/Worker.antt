-- ===== src/Platform/Worker.antt =====
-- The worker that delivers jobs to the venue: internal/platform/service/outbox.go.
pub mod Backoff
use avito_kitchen.Base.{
  ℕ, ◌+◌, ◌-◌, ◌*◌, ◌^◌, Bool, true, false, ◌==◌, ltb, leb, ◌||◌, ◌&&◌, not, min, if◌then◌else◌,
}
use avito_kitchen.Platform.Store.{Db, Env, RepoError, JobType}
use avito_kitchen.Platform.Store
use avito_kitchen.Platform.Domain.{OutboxJob, VenueOrderDecision, VenueCancellationDecision}
use avito_kitchen.Platform.Outbox.{claim_outbox}
use avito_kitchen.Platform.Outbox.Finish.{resolve_outbox, resolve_cancellation, retry_outbox}
use avito_kitchen.Platform.Client.{ClientError}
use avito_kitchen.Shared.Transaction.{Result, ok, err}

-- `time.Second`, in microseconds.
abbrev pub second : ℕ
second = 1000000

-- `retryBackoff`. `jitter base` is `float64(base)*0.25*jitter`.
unfoldable pub retry_backoff : ℕ → (ℕ → ℕ) → ℕ
retry_backoff attempt jitter =
    let attempt' = if ltb attempt 1 then 1 else attempt in
    let base = second * 2 ^ min (attempt' - 1) 5 in base + jitter base

-- What a round of a worker meets: the environments of its two statements, its configuration, the
-- readings of the clock, the answers of the venue, and what the others do to the database while
-- the venue is called.
pub record Round : Type 0 where
  pub claim_env : Env
  pub finish_env : Env
  pub lease : ℕ
  pub max_attempts : ℕ
  pub now : ℕ
  pub retry_now : ℕ
  pub jitter : ℕ → ℕ
  pub decide : OutboxJob → Result ClientError VenueOrderDecision
  pub cancel : OutboxJob → Result ClientError VenueCancellationDecision
  pub others : Db → Db

-- `finishRetryAt`; its error is only logged.
unfoldable pub finish_retry_at : Round → OutboxJob → ℕ → Bool → Db → Db
unfolding retry_outbox
finish_retry_at w job next terminal db = (retry_outbox w.finish_env job next terminal db).db

-- `terminal` and `next` after a delivery that failed.
unfoldable pub retry_plan : Round → OutboxJob → ClientError → ℕ × Bool
unfolding retry_backoff
retry_plan w job e =
    let next = w.retry_now + retry_backoff job.attempts w.jitter in
    (
      next,
      not e.retryable
          || leb w.max_attempts job.attempts
          || not (Store.is_cancel job.event_type) && leb job.confirmation_deadline next,
    )

-- The delivery of a claimed job and what follows it.
unfoldable pub deliver : JobType → Round → OutboxJob → Db → Db
unfolding finish_retry_at retry_plan
deliver Store.cancel_order w job db = elim (w.cancel job) [
  | ok decision ↦ (resolve_cancellation w.finish_env job decision db).db
  | err e ↦ let plan = retry_plan w job e in finish_retry_at w job plan.0 plan.1 db
]
deliver Store.confirm_order w job db = elim (w.decide job) [
  | ok decision ↦ (resolve_outbox w.finish_env job decision db).db
  | err e ↦ let plan = retry_plan w job e in finish_retry_at w job plan.0 plan.1 db
]

-- `job.EventType != "cancel_order" && !time.Now().Before(job.ConfirmationDeadline)`.
abbrev pub is_expired : ℕ → OutboxJob → Bool
is_expired now job = not (Store.is_cancel job.event_type) && leb job.confirmation_deadline now

-- `processOne`: whether a job was found, and the database after the round.
unfoldable pub process_one : Round → Db → Bool × Db
unfolding deliver
process_one w db = elim (claim_outbox w.claim_env w.lease db) [
  | err e ↦ (false, db)
  | ok (job, claimed) ↦ elim (is_expired w.now job) [
    | true ↦ (true, finish_retry_at w job w.now true (w.others claimed))
    | false ↦ (true, deliver job.event_type w job (w.others claimed))
  ]
]
