-- ===== src/Venue/System/Kept.antt =====
-- What the venue has answered about an order stands: no statement of internal/venue/repository
-- changes `decision_details`, nor `cancellation_decision` where it is set.
use avito_kitchen.Base.{
  ℕ, ◌≡◌, ◌∙◌, refl, sym, ap, Bool, true, none, some, Text, find_row, update_where, arith,
  find_row-update_where, find_row-insert, Option-cases, Bool-cases, inl, inr, same,
}
use avito_kitchen.Venue.Store.{
  OrderStatus, EventType, OrderDecision, CancellationDecision, ManagedOrder, CallbackJob,
  VenueOrderRow, VenueOutboxRow, Db, Env, Fault,
}
use avito_kitchen.Venue.Store
use avito_kitchen.Venue.Decide.{is_for}
use avito_kitchen.Venue.Decide.Apply.{decide_order_tx, decide_order}
use avito_kitchen.Venue.Decide.Stable.{Recorded, decide_order_tx-cases}
use avito_kitchen.Venue.Lifecycle.{has_id, advanced_row, transition_order_tx, transition_order}
use avito_kitchen.Venue.Lifecycle.Events.{
  IsNumbered, transaction_keeps, Transition, repeated, advanced, transition_order_tx-Transition,
  advance-tables,
}
use avito_kitchen.Venue.Cancel.{
  cancelled_row, decision_saved, refused, cancel_order_tx, cancel_order,
}
use avito_kitchen.Venue.Cancel.Once.{
  Answer, answered_yes, answered_no, cancel_order_tx-Answer, cancel_accepted-tables,
  refuse_cancellation-tables,
}
use avito_kitchen.Venue.Cancel.Once
use avito_kitchen.Venue.Callbacks.{update_leased, claim_callback, next_callback}
use avito_kitchen.Venue.Numbering.{find_row-is_for}
use avito_kitchen.Shared.Transaction.{ok}

-- The answers that a row holds are those that another holds.
pub record Stands (r r' : VenueOrderRow) : Type 0 where
  pub decided : r'.decision_details ≡ r.decision_details
  pub answered :
      (d : CancellationDecision)
      → r.cancellation_decision ≡ some d
      → r'.cancellation_decision ≡ some d

-- Each order of the platform that is there stays, with its answers.
abbrev pub Kept : Db → Db → Type 0
Kept db db' =
    (platform_id : Text) (r : VenueOrderRow)
    → find_row (is_for platform_id) db.orders ≡ some r
    → (r' : VenueOrderRow) × (find_row (is_for platform_id) db'.orders ≡ some r') × Stands r r'

refl_Stands : (r : VenueOrderRow) → Stands r r
refl_Stands r = record { decided = refl; answered = λ d h. h }

pub same_orders-Kept : (db db' : Db) → db'.orders ≡ db.orders → Kept db db'
same_orders-Kept db db' e platform_id r found = (r, rw e found, refl_Stands r)

update-Kept :
    (p : VenueOrderRow → Bool) (f : VenueOrderRow → VenueOrderRow) (db db' : Db)
    → ((r : VenueOrderRow) → (f r).platform_order_id ≡ r.platform_order_id)
    → ((platform_id : Text) (r : VenueOrderRow)
        → find_row (is_for platform_id) db.orders ≡ some r
        → p r ≡ true
        → Stands r (f r))
    → db'.orders ≡ update_where p f db.orders
    → Kept db db'
update-Kept p f db db' keys stands e platform_id r found =
    let e' =
      find_row-update_where (is_for platform_id) p f (λ x. ap (λ k. same k platform_id) (keys x))
        db.orders found in
    elim (Bool-cases (p r)) [
      | inl chosen ↦ (f r, rw e (e' ∙ rw chosen refl), stands platform_id r found chosen)
      | inr other ↦ (r, rw e (e' ∙ rw other refl), refl_Stands r)
    ]

Recorded-Kept :
    {id : Text} (db : Db) {d : OrderDecision} {db' : Db} → Recorded id db d db' → Kept db db'
Recorded-Kept db record_of platform_id r found = (
  r,
  rw record_of.placed (find_row-insert (is_for platform_id) record_of.row db.orders found),
  refl_Stands r,
)

pub decide_order-Kept :
    (env : Env) (command : Store.OrderCommand) (db : Db) → Kept db (decide_order env command db).db
unfolding decide_order decide_order_tx
decide_order-Kept env command db =
    transaction_keeps (Kept db) env (decide_order_tx env command) db (same_orders-Kept db db refl)
      λ d db' h. elim (Option-cases (env.uuid_in command.platform_order_id)) [
        | inl bad ↦ absurd (not_read bad h)
        | inr (id, e) ↦ elim (decide_order_tx-cases env command id db e h) [
          | inl (_, same_db) ↦ same_orders-Kept db db' (ap Db.orders same_db)
          | inr r ↦ Recorded-Kept db r
        ]
      ]
  where
    not_read :
        {d : OrderDecision} {db' : Db}
        → env.uuid_in command.platform_order_id ≡ none
        → decide_order_tx env command db ≡ ok (d, db')
        → ⊥
    not_read e h = ground arith

pub transition_order-Kept :
    (env : Env) (order_id : Text) (expected target : OrderStatus) (type : EventType) (db : Db)
    → Kept db (transition_order env order_id expected target type db).db
unfolding transition_order
transition_order-Kept env order_id expected target type db =
    transaction_keeps (Kept db) env (transition_order_tx env order_id expected target type) db
      (same_orders-Kept db db refl)
      λ order db' h.
        go (transition_order_tx-Transition env order_id expected target type db order db' h)
  where
    go :
        {order : ManagedOrder} {db' : Db}
        → Transition env order_id expected target type order db db'
        → Kept db db'
    go {db' = db'} (repeated row _ e) = same_orders-Kept db db' (ap Db.orders e)
    go {db' = db'} (advanced row _ _ h) =
        update-Kept (has_id row.id) (advanced_row env.now target) db db' (λ r. refl)
          (λ id r found chosen. record { decided = refl; answered = λ d saved. saved })
          (advance-tables env row target type db h).0

-- The row that is answered is the only one with its identifier, and has no answer yet.
unanswered-Stands :
    (f : VenueOrderRow → VenueOrderRow) (db : Db) (row : VenueOrderRow) (id : Text)
    → IsNumbered db
    → find_row (is_for id) db.orders ≡ some row
    → row.cancellation_decision ≡ none
    → ((r : VenueOrderRow) → (f r).decision_details ≡ r.decision_details)
    → (platform_id : Text) (r : VenueOrderRow) → find_row (is_for platform_id) db.orders ≡ some r
    → has_id row.id r ≡ true
    → Stands r (f r)
unanswered-Stands f db row id i known open_row keeps platform_id r found chosen =
    let one = find_row-is_for id db.orders i.keyed known in
    let other = find_row-is_for platform_id db.orders i.keyed found in
    let same_id : r.id ≡ row.id = ground arith in
    let e : some r ≡ some row = sym other ∙ ap (λ k. find_row (has_id k) db.orders) same_id ∙ one in
    let unanswered : r.cancellation_decision ≡ none = ground arith in
    record { decided = keeps r; answered = λ d saved. absurd (ground arith) }

pub cancel_order-Kept :
    (env : Env) (platform_order_id : Text) (db : Db)
    → IsNumbered db
    → Kept db (cancel_order env platform_order_id db).db
unfolding cancel_order cancel_order_tx
cancel_order-Kept env platform_order_id db i =
    transaction_keeps (Kept db) env (cancel_order_tx env platform_order_id) db
      (same_orders-Kept db db refl)
      λ d db' h. elim (Option-cases (env.uuid_in platform_order_id)) [
        | inl bad ↦ absurd (not_read bad h)
        | inr (id, e) ↦ go (cancel_order_tx-Answer env platform_order_id id db d db' e h)
      ]
  where
    not_read :
        {d : CancellationDecision} {db' : Db}
        → env.uuid_in platform_order_id ≡ none
        → cancel_order_tx env platform_order_id db ≡ ok (d, db')
        → ⊥
    not_read e h = ground arith

    go : {id : Text} {d : CancellationDecision} {db' : Db} → Answer env id db d db' → Kept db db'
    go {db' = db'} (Once.repeated row found f e) = same_orders-Kept db db' (ap Db.orders e)
    go {id} {db' = db'} (answered_yes row found open_row _ _ h) =
        update-Kept (has_id row.id) (cancelled_row env.now) db db' (λ r. refl)
          (unanswered-Stands (cancelled_row env.now) db row id i found open_row (λ r. refl))
          (cancel_accepted-tables env row db h).0
    go {id} {db' = db'} (answered_no row found open_row _ _ h) =
        update-Kept (has_id row.id) (decision_saved env.now (refused row.status)) db db' (λ r. refl)
          (unanswered-Stands (decision_saved env.now (refused row.status)) db row id i found
            open_row (λ r. refl))
          (refuse_cancellation-tables env row db h).0

pub update_leased-orders :
    (env : Env) (fault : Fault) (job : CallbackJob) (f : VenueOutboxRow → VenueOutboxRow) (db : Db)
    → (update_leased env fault job f db).1.orders ≡ db.orders
update_leased-orders env fault job f db = ground arith

pub claim_callback-orders :
    (env : Env) (lease : ℕ) (db : Db) {job : CallbackJob} {db' : Db}
    → claim_callback env lease db ≡ ok (job, db')
    → db'.orders ≡ db.orders
unfolding claim_callback
claim_callback-orders env lease db {db' = db'} h = elim (Option-cases (next_callback env.now db)) [
  | inl idle ↦ absurd (ground arith)
  | inr (row, e) ↦ ground arith
]
