-- ===== src/Venue/Cancel/Once.antt =====
-- What the venue answers to a cancellation: `CancelOrder` of internal/venue/repository/orders.go.
use avito_kitchen.Base.{
  ◌≡◌, refl, true, false, Option, none, some, List, [], ◌∷◌, Text, find_row, update_where,
  insert_row, coalesce, arith, Option-cases, Bool-cases, inl, inr,
}
use avito_kitchen.Venue.Store.{CancellationDecision, VenueOrderRow, Db, Env, Fault}
use avito_kitchen.Venue.Store
use avito_kitchen.Venue.Decide.{is_for}
use avito_kitchen.Venue.Lifecycle.{has_id, callback_row}
use avito_kitchen.Venue.Cancel.{
  cancelled_row, decision_saved, refused, confirmed, cancel_accepted, refuse_cancellation,
  cancel_order_tx,
}
use avito_kitchen.Shared.Transaction.{ok}

-- The answer that is saved with an order.
abbrev pub saved_answer : Text → List VenueOrderRow → Option CancellationDecision
saved_answer platform_id orders = elim (find_row (is_for platform_id) orders) [
  | none ↦ none
  | some r ↦ r.cancellation_decision
]

-- The keys of `venue_orders`: where the platform's identifier is that of a row, so is the other.
saved_answer-update :
    (f : VenueOrderRow → VenueOrderRow) (d : CancellationDecision)
    → ((r : VenueOrderRow) → (f r).platform_order_id ≡ r.platform_order_id)
    → ((r : VenueOrderRow) → (f r).cancellation_decision ≡ some d)
    → (platform_id : Text) (xs : List VenueOrderRow) {row : VenueOrderRow}
    → find_row (is_for platform_id) xs ≡ some row
    → saved_answer platform_id (update_where (has_id row.id) f xs) ≡ some d
saved_answer-update f d keeps saves platform_id [] h = cc
saved_answer-update f d keeps saves platform_id (r ∷ rs) {row} h =
    ground (arith, keeps r, saves r, saved_answer-update f d keeps saves platform_id rs {row = row})

pub cancel_accepted-tables :
    (env : Env) (row : VenueOrderRow) (db : Db) {d : CancellationDecision} {db' : Db}
    → cancel_accepted env row db ≡ ok (d, db')
    → (db'.orders ≡ update_where (has_id row.id) (cancelled_row env.now) db.orders)
      × (db'.outbox
          ≡ insert_row
              (callback_row env
                (coalesce (env.uuid 1) [])
                row.id
                (coalesce (env.uuid 0) [])
                row.next_event_sequence
                Store.order_cancelled)
              db.outbox)
      × (d ≡ confirmed)
unfolding cancel_accepted
cancel_accepted-tables env row db h = ground arith

pub refuse_cancellation-tables :
    (env : Env) (row : VenueOrderRow) (db : Db) {d : CancellationDecision} {db' : Db}
    → refuse_cancellation env row db ≡ ok (d, db')
    → (db'.orders
        ≡ update_where (has_id row.id) (decision_saved env.now (refused row.status)) db.orders)
      × (db'.outbox ≡ db.outbox)
      × (d ≡ refused row.status)
unfolding refuse_cancellation
refuse_cancellation-tables env row db h = ground arith

-- The three ways in which a cancellation is answered.
pub data Answer (env : Env) (platform_id : Text) (db : Db) (d : CancellationDecision) (db' : Db)
    : Type 0 where
  repeated :
      (row : VenueOrderRow)
      → find_row (is_for platform_id) db.orders ≡ some row
      → row.cancellation_decision ≡ some d
      → db' ≡ db
      → Answer env platform_id db d db'
  answered_yes :
      (row : VenueOrderRow)
      → find_row (is_for platform_id) db.orders ≡ some row
      → row.cancellation_decision ≡ none
      → row.status ≡ Store.accepted
      → d ≡ confirmed
      → cancel_accepted env row db ≡ ok (d, db')
      → Answer env platform_id db d db'
  answered_no :
      (row : VenueOrderRow)
      → find_row (is_for platform_id) db.orders ≡ some row
      → row.cancellation_decision ≡ none
      → Store.same_status row.status Store.accepted ≡ false
      → d ≡ refused row.status
      → refuse_cancellation env row db ≡ ok (d, db')
      → Answer env platform_id db d db'

same_status→eq : (a b : Store.OrderStatus) → Store.same_status a b ≡ true → a ≡ b
same_status→eq a b h = ground arith

pub cancel_order_tx-Answer :
    (env : Env) (platform_order_id id : Text) (db : Db) (d : CancellationDecision) (db' : Db)
    → env.uuid_in platform_order_id ≡ some id
    → cancel_order_tx env platform_order_id db ≡ ok (d, db')
    → Answer env id db d db'
unfolding cancel_order_tx
cancel_order_tx-Answer env platform_order_id id db d db' e h =
    elim (Option-cases (find_row (is_for id) db.orders)) [
      | inl missing ↦ absurd (ground arith)
      | inr (row, found) ↦ elim (Option-cases row.cancellation_decision) [
        | inr (saved, f) ↦ repeated row found (ground arith) (ground arith)
        | inl first ↦ elim (Bool-cases (Store.same_status row.status Store.accepted)) [
          | inl right ↦
              let g : cancel_accepted env row db ≡ ok (d, db') = ground arith in
              answered_yes row found first (same_status→eq _ _ right)
                (cancel_accepted-tables env row db g).2 g
          | inr wrong ↦
              let g : refuse_cancellation env row db ≡ ok (d, db') = ground arith in
              answered_no row found first wrong (refuse_cancellation-tables env row db g).2 g
        ]
      ]
    ]

pub Answer-saves :
    {env : Env} {id : Text} {db : Db} {d : CancellationDecision} {db' : Db}
    → Answer env id db d db'
    → saved_answer id db'.orders ≡ some d
Answer-saves (repeated row found f e) = ground arith
Answer-saves {env} {id} {db} (answered_yes row found _ _ f h) =
    rw ((cancel_accepted-tables env row db h).0, f)
      (saved_answer-update (cancelled_row env.now) confirmed (λ r. refl) (λ r. refl) id db.orders
        found)
Answer-saves {env} {id} {db} (answered_no row found _ _ f h) =
    rw ((refuse_cancellation-tables env row db h).0, f)
      (saved_answer-update (decision_saved env.now (refused row.status)) (refused row.status)
        (λ r. refl) (λ r. refl) id db.orders found)

pub cancel_order_tx-saved :
    (env : Env) (platform_order_id id : Text) (db : Db) {d : CancellationDecision}
    → ((f : Fault) → env.fails f ≡ false)
    → env.uuid_in platform_order_id ≡ some id
    → saved_answer id db.orders ≡ some d
    → cancel_order_tx env platform_order_id db ≡ ok (d, db)
unfolding cancel_order_tx
cancel_order_tx-saved env platform_order_id id db smooth e h =
    elim (Option-cases (find_row (is_for id) db.orders)) [
      | inl missing ↦ absurd (ground arith)
      | inr (row, found) ↦ ground (arith, smooth Store.lock_venue_cancellation)
    ]
