-- ===== src/Venue/Worker/Rounds.antt =====
-- The rounds of the worker and the numbering of events.
use avito_kitchen.Base.{
  ℕ, ◌+◌, ◌*◌, ◌≤◌, ◌≡◌, refl, Bool, List, [], ◌∷◌, Text, same, update_where, count_where, arith,
  Option-cases, Bool-cases, inl, inr, subst, zero, suc,
}
use avito_kitchen.Venue.Store.{CallbackJob, VenueOutboxRow, Db, Env, Fault}
use avito_kitchen.Venue.Store
use avito_kitchen.Venue.Lifecycle.Events.{IsNumbered, is_event}
use avito_kitchen.Venue.Callbacks.{
  is_leased, update_leased, delivered, put_off, lease_row, next_callback, claim_callback,
  complete_callback, retry_callback,
}
use avito_kitchen.Venue.Worker.{second, callback_backoff, Round, finish_delivery, process_one}
use avito_kitchen.Shared.Transaction.{ok, Result-cases}

-- An update that leaves the order and the number of each event alone changes no count.
count_where-update :
    (p : VenueOutboxRow → Bool) (f : VenueOutboxRow → VenueOutboxRow)
    → ((r : VenueOutboxRow) (id : Text) (n : ℕ) → is_event id n (f r) ≡ is_event id n r)
    → (id : Text) (n : ℕ) (xs : List VenueOutboxRow)
    → count_where (is_event id n) (update_where p f xs) ≡ count_where (is_event id n) xs
count_where-update p f same_event id n [] = refl
count_where-update p f same_event id n (r ∷ rs) =
    ground (arith, same_event r id n, count_where-update p f same_event id n rs)

update_where-IsNumbered :
    (p : VenueOutboxRow → Bool) (f : VenueOutboxRow → VenueOutboxRow) (db : Db)
    → ((r : VenueOutboxRow) (id : Text) (n : ℕ) → is_event id n (f r) ≡ is_event id n r)
    → IsNumbered db
    → IsNumbered (record db { outbox = update_where p f db.outbox })
update_where-IsNumbered p f db same_event i = record {
  once = λ id n. rw (count_where-update p f same_event id n db.outbox) (i.once id n);
  positive = i.positive;
  keyed = i.keyed;
}

pub claim_callback-IsNumbered :
    (env : Env) (lease : ℕ) (db : Db) {job : CallbackJob} {db' : Db}
    → IsNumbered db
    → claim_callback env lease db ≡ ok (job, db')
    → IsNumbered db'
unfolding claim_callback
claim_callback-IsNumbered env lease db {job = job} {db' = db'} i h =
    elim (Option-cases (next_callback env.now db)) [
      | inl idle ↦ absurd (ground arith)
      | inr (row, e) ↦ subst IsNumbered (ground arith) (
          update_where-IsNumbered (λ r. same r.id row.id) (lease_row env.now lease job.lock_token)
            db (λ r id n. refl) i)
    ]

pub update_leased-IsNumbered :
    (env : Env) (fault : Fault) (job : CallbackJob) (f : VenueOutboxRow → VenueOutboxRow) (db : Db)
    → ((r : VenueOutboxRow) (id : Text) (n : ℕ) → is_event id n (f r) ≡ is_event id n r)
    → IsNumbered db
    → IsNumbered (update_leased env fault job f db).1
update_leased-IsNumbered env fault job f db same_event i = elim (Bool-cases (env.fails fault)) [
  | inl fails ↦ subst IsNumbered (ground arith) i
  | inr runs ↦
      subst IsNumbered (ground arith) (update_where-IsNumbered (is_leased job) f db same_event i)
]

finish_delivery-IsNumbered :
    (w : Round) (job : CallbackJob) (db : Db)
    → IsNumbered db
    → IsNumbered (finish_delivery w job db)
unfolding finish_delivery complete_callback retry_callback
finish_delivery-IsNumbered w job db i = elim (Bool-cases (w.sends job)) [
  | inl sent ↦ subst IsNumbered (ground arith) (
      update_leased-IsNumbered w.finish_env Store.complete_callback job (delivered w.finish_env.now)
        db (λ r id n. refl) i)
  | inr refused ↦ subst IsNumbered (ground arith) (
      update_leased-IsNumbered w.finish_env Store.retry_callback job
        (put_off (w.retry_now + callback_backoff job.attempts w.jitter)) db (λ r id n. refl) i)
]

-- A whole round of the worker of callbacks keeps the numbering of events, whatever the platform
-- answers, where what the others do meanwhile keeps it.
pub process_one-IsNumbered :
    (w : Round) (db : Db)
    → ((d : Db) → IsNumbered d → IsNumbered (w.others d))
    → IsNumbered db
    → IsNumbered (process_one w db).1
unfolding process_one
process_one-IsNumbered w db others i = elim (Result-cases (claim_callback w.claim_env w.lease db)) [
  | inr (e, failed) ↦ subst IsNumbered (ground arith) i
  | inl ((job, claimed), f) ↦ subst IsNumbered (ground arith) (
      finish_delivery-IsNumbered w job (w.others claimed)
        (others claimed (claim_callback-IsNumbered w.claim_env w.lease db i f)))
]

-- With a jitter of at most a quarter, the pause before a new attempt to deliver an event lies
-- between one and eighty seconds.
pub callback_backoff_bounds :
    (attempt : ℕ) (jitter : ℕ → ℕ)
    → ((base : ℕ) → 4 * jitter base ≤ base)
    → (second ≤ callback_backoff attempt jitter) × (callback_backoff attempt jitter ≤ 80 * second)
unfolding callback_backoff
callback_backoff_bounds zero jitter quarter = ground (arith, quarter second)
callback_backoff_bounds (suc zero) jitter quarter = ground (arith, quarter second)
callback_backoff_bounds (suc (suc zero)) jitter quarter = ground (arith, quarter (2 * second))
callback_backoff_bounds (suc (suc (suc zero))) jitter quarter = ground (arith, quarter (4 * second))
callback_backoff_bounds (suc (suc (suc (suc zero)))) jitter quarter =
    ground (arith, quarter (8 * second))
callback_backoff_bounds (suc (suc (suc (suc (suc zero))))) jitter quarter =
    ground (arith, quarter (16 * second))
callback_backoff_bounds (suc (suc (suc (suc (suc (suc zero)))))) jitter quarter =
    ground (arith, quarter (32 * second))
callback_backoff_bounds (suc (suc (suc (suc (suc (suc (suc n))))))) jitter quarter =
    ground (arith, quarter (64 * second))
