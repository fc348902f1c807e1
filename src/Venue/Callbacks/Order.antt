-- ===== src/Venue/Callbacks/Order.antt =====
-- The order of the deliveries of `ClaimCallback`.
use avito_kitchen.Base.{
  ℕ, ◌≡◌, true, false, some, List, [], ◌∷◌, exists_row, All, first-All, order_by-All,
  select_keeps-All, select-All, own_row-All, Memᴰ, arith, Option-cases, inl, inr, is_none, ◌<◌, ◌≤◌,
}
use avito_kitchen.Venue.Store.{CallbackJob, VenueOutboxRow, Db, Env}
use avito_kitchen.Venue.Callbacks.{
  lease_is_over, is_blocking, is_candidate, next_callback, claim_callback,
}
use avito_kitchen.Shared.Transaction.{ok}

next_callback-is_candidate :
    (now : ℕ) (db : Db) {r : VenueOutboxRow}
    → next_callback now db ≡ some r
    → is_candidate now db r ≡ true
unfolding next_callback
next_callback-is_candidate now db h =
    let P = λ (x : VenueOutboxRow). is_candidate now db x ≡ true in
    first-All P _
      (order_by-All P VenueOutboxRow.available_at _
        (order_by-All P VenueOutboxRow.created_at _ (select-All (is_candidate now db) db.outbox)))
      h

unblocked-All :
    (r : VenueOutboxRow) (xs : List VenueOutboxRow)
    → exists_row (is_blocking r) xs ≡ false
    → All
        (λ (e : VenueOutboxRow).
          e.venue_order_id ≡ r.venue_order_id
          → e.sequence < r.sequence
          → is_none e.processed_at ≡ false)
        xs
unblocked-All r [] h = tt
unblocked-All r (x ∷ xs) h = (λ own before. ground arith, unblocked-All r xs (ground arith))

-- What a claimed row satisfies: it stands in the table, it is due, nobody holds it, and every event of its order with a
-- smaller number has been delivered.
pub record IsNext (now : ℕ) (job : CallbackJob) (db : Db) (r : VenueOutboxRow) : Type 0 where
  pub stored : Memᴰ r db.outbox
  pub claimed : (job.id ≡ r.id) × (job.payload ≡ r.payload)
  pub undelivered : is_none r.processed_at ≡ true
  pub due : r.available_at ≤ now
  pub free : lease_is_over now r.locked_until ≡ true
  pub earlier :
      All
        (λ (e : VenueOutboxRow).
          e.venue_order_id ≡ r.venue_order_id
          → e.sequence < r.sequence
          → is_none e.processed_at ≡ false)
        db.outbox

-- The row that is chosen stands in the table.
next_callback-Memᴰ :
    (now : ℕ) (db : Db) {r : VenueOutboxRow} → next_callback now db ≡ some r → Memᴰ r db.outbox
unfolding next_callback
next_callback-Memᴰ now db h =
    let P = λ (x : VenueOutboxRow). Memᴰ x db.outbox in
    first-All P _
      (order_by-All P VenueOutboxRow.available_at _ (
        order_by-All P VenueOutboxRow.created_at _
          (select_keeps-All P (is_candidate now db) db.outbox (own_row-All db.outbox))))
      h

candidate-IsNext :
    (now : ℕ) (job : CallbackJob) (db : Db) (r : VenueOutboxRow)
    → job.id ≡ r.id
    → job.payload ≡ r.payload
    → Memᴰ r db.outbox
    → is_candidate now db r ≡ true
    → IsNext now job db r
candidate-IsNext now job db r e f stored h = record {
  stored = stored;
  claimed = (e, f);
  undelivered = ground arith;
  due = ground arith;
  free = ground arith;
  earlier = unblocked-All r db.outbox (ground arith);
}

-- A worker that is given an event to deliver is given one of the outbox, that is due, that nobody
-- holds and that is not delivered, and never one that would overtake an earlier undelivered event
-- of its order.
pub claim_callback-IsNext :
    (env : Env) (lease : ℕ) (db : Db) (job : CallbackJob) (db' : Db)
    → claim_callback env lease db ≡ ok (job, db')
    → (r : VenueOutboxRow) × IsNext env.now job db r
unfolding claim_callback
claim_callback-IsNext env lease db job db' h = elim (Option-cases (next_callback env.now db)) [
  | inl empty ↦ absurd (ground arith)
  | inr (r, e) ↦ (
    r,
    candidate-IsNext env.now job db r (ground arith) (ground arith)
        (next_callback-Memᴰ env.now db e) (next_callback-is_candidate env.now db e),
  )
]
