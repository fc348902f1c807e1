-- ===== src/Venue/Worker.antt =====
-- The worker that delivers events to the platform: internal/venue/service/callbacks.go.
pub mod Rounds
use avito_kitchen.Base.{ℕ, ◌+◌, ◌-◌, ◌*◌, ◌^◌, Bool, true, false, ltb, min, if◌then◌else◌}
use avito_kitchen.Venue.Store.{CallbackJob, Db, Env}
use avito_kitchen.Venue.Callbacks.{claim_callback, complete_callback, retry_callback}
use avito_kitchen.Shared.Transaction.{ok, err}

-- `time.Second`, in microseconds.
abbrev pub second : ℕ
second = 1000000

-- `callbackBackoff`. `jitter base` is `float64(base)*0.25*jitter`.
unfoldable pub callback_backoff : ℕ → (ℕ → ℕ) → ℕ
callback_backoff attempt jitter =
    let attempt' = if ltb attempt 1 then 1 else attempt in
    let base = second * 2 ^ min (attempt' - 1) 6 in base + jitter base

-- What a round meets: the environments of its two statements, the lease, the clock, whether the
-- platform takes an event, and what the others do to the database during the call.
pub record Round : Type 0 where
  pub claim_env : Env
  pub finish_env : Env
  pub lease : ℕ
  pub retry_now : ℕ
  pub jitter : ℕ → ℕ
  pub sends : CallbackJob → Bool
  pub others : Db → Db

-- What follows the call of `SendOrderEvent`; the errors of the statements are only logged.
unfoldable pub finish_delivery : Round → CallbackJob → Db → Db
unfolding callback_backoff complete_callback retry_callback
finish_delivery w job db = elim (w.sends job) [
  | true ↦ (complete_callback w.finish_env job db).1
  | false ↦
      (retry_callback w.finish_env job (w.retry_now + callback_backoff job.attempts w.jitter) db).1
]

-- `processOne`: whether an event was found, and the database after the round.
unfoldable pub process_one : Round → Db → Bool × Db
unfolding claim_callback finish_delivery
process_one w db = elim (claim_callback w.claim_env w.lease db) [
  | err e ↦ (false, db)
  | ok (job, claimed) ↦ (true, finish_delivery w job (w.others claimed))
]
