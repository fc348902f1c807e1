-- ===== src/Platform/System.antt =====
-- The platform as a whole: its handlers, its workers and the partner's calls over one database, in
-- any order, with any environment at each call.
pub mod Jobs
pub mod Machine
pub mod Kept
pub mod Moves
pub mod Invariant
pub mod Safety
pub mod Rounds
pub mod Leased
pub mod Progress
use avito_kitchen.Base.{ℕ, Bool, ◌≡◌, Option, List, [], ◌∷◌, Text}
use avito_kitchen.Platform.Store.{Db, Env, confirm_order, cancel_order, JobType}
use avito_kitchen.Platform.Domain.{
  CreateOrderCommand, OutboxJob, VenueOrderDecision, VenueCancellationDecision, OrderEvent,
}
use avito_kitchen.Platform.Orders
use avito_kitchen.Platform.Checkout.Create.{create_order}
use avito_kitchen.Platform.Outbox.{claim_outbox}
use avito_kitchen.Platform.Outbox.Finish.{resolve_outbox, resolve_cancellation, retry_outbox}
use avito_kitchen.Platform.Events.{record_order_event}
use avito_kitchen.Platform.Partner.{
  MenuSnapshot, AvailabilityUpdate, replace_menu, update_availability,
}
use avito_kitchen.Shared.Transaction.{ok}

-- The database, and the jobs that the workers have claimed so far: a worker may end a job long
-- after its lease is over, and more than once.
pub record World : Type 0 where
  pub db : Db
  pub held : List OutboxJob

pub data IsHeld (job : OutboxJob) : List OutboxJob → Type 0 where
  first : {jobs : List OutboxJob} → IsHeld job (job ∷ jobs)
  later : {other : OutboxJob} {jobs : List OutboxJob} → IsHeld job jobs → IsHeld job (other ∷ jobs)

-- One call of an operation that writes, whatever its outcome.
pub data Step (w : World) : World → Type 0 where
  creates :
      (env : Env) (command : CreateOrderCommand)
      → Step w (record w { db = (create_order env command w.db).db })
  cancels :
      (env : Env) (order_id token_hash : Text)
      → Step w (record w { db = (Orders.cancel_order env order_id token_hash w.db).db })
  claims :
      (env : Env) (lease : ℕ) {job : OutboxJob} {db : Db}
      → claim_outbox env lease w.db ≡ ok (job, db)
      → Step w (record { db = db; held = job ∷ w.held })
  resolves :
      (env : Env) (job : OutboxJob) (decision : VenueOrderDecision)
      → IsHeld job w.held
      → job.event_type ≡ confirm_order
      → Step w (record w { db = (resolve_outbox env job decision w.db).db })
  resolves_cancellation :
      (env : Env) (job : OutboxJob) (decision : VenueCancellationDecision)
      → IsHeld job w.held
      → job.event_type ≡ JobType.cancel_order
      → Step w (record w { db = (resolve_cancellation env job decision w.db).db })
  retries :
      (env : Env) (job : OutboxJob) (available_at : ℕ) (terminal : Bool)
      → IsHeld job w.held
      → Step w (record w { db = (retry_outbox env job available_at terminal w.db).db })
  records :
      (env : Env) (venue_id order_id : Text) (event : OrderEvent)
      → Step w (record w { db = (record_order_event env venue_id order_id event w.db).db })
  replaces_menu :
      (env : Env) (item_ids : ℕ → ℕ → Option Text) (venue_id : Text) (snapshot : MenuSnapshot)
      (hash : Text)
      → Step w (record w { db = (replace_menu env item_ids venue_id snapshot hash w.db).db })
  updates_availability :
      (env : Env) (venue_id : Text) (update : AvailabilityUpdate) {db : Db}
      → update_availability env venue_id update w.db ≡ ok db
      → Step w (record w { db = db })

pub data Reach (w : World) : World → Type 0 where
  here : Reach w w
  next : {v u : World} → Reach w v → Step v u → Reach w u

-- The worlds that the program starts from: venues may be there, orders and jobs are not.
pub record IsFresh (w : World) : Type 0 where
  pub orders : w.db.orders ≡ []
  pub outbox : w.db.outbox ≡ []
  pub held : w.held ≡ []
