-- ===== src/Venue/Numbering.antt =====
-- The numbering of events under decisions and cancellations: `DecideOrder` and `CancelOrder` of
-- internal/venue/repository/orders.go.
use avito_kitchen.Base.{
  ℕ, ◌≡◌, refl, Bool, true, false, none, some, List, [], ◌∷◌, Text, ◌||◌, find_row, exists_row,
  update_where, insert_row, arith, Option-cases, inl, inr, subst, sym,
}
use avito_kitchen.Venue.Store.{
  OrderCommand, OrderDecision, CancellationDecision, VenueOrderRow, Db, Env,
}
use avito_kitchen.Venue.Decide.{is_for, is_taken}
use avito_kitchen.Venue.Decide.Apply.{decide_order_tx, decide_order}
use avito_kitchen.Venue.Decide.Stable.{Recorded, decide_order_tx-cases}
use avito_kitchen.Venue.Lifecycle.{has_id}
use avito_kitchen.Venue.Lifecycle.Events.{
  IsNumbered, IsKeyed, next_sequence, update_where-IsKeyed, transaction_keeps, add_event-IsNumbered,
}
use avito_kitchen.Venue.Cancel.{
  cancelled_row, decision_saved, refused, cancel_order_tx, cancel_order,
}
use avito_kitchen.Venue.Cancel.Once.{
  Answer, repeated, answered_yes, answered_no, cancel_order_tx-Answer, cancel_accepted-tables,
  refuse_cancellation-tables,
}
use avito_kitchen.Shared.Transaction.{ok}

is_taken-has_id :
    (id platform_id : Text) (xs : List VenueOrderRow)
    → exists_row (is_taken id platform_id) xs ≡ false
    → exists_row (has_id id) xs ≡ false
is_taken-has_id id platform_id [] h = refl
is_taken-has_id id platform_id (r ∷ rs) h = ground (arith, is_taken-has_id id platform_id rs)

exists_row-insert_row :
    (p : VenueOrderRow → Bool) (x : VenueOrderRow) (xs : List VenueOrderRow)
    → exists_row p (insert_row x xs) ≡ (exists_row p xs || p x)
exists_row-insert_row p x [] = ground arith
exists_row-insert_row p x (r ∷ rs) = ground (arith, exists_row-insert_row p x rs)

insert_row-IsKeyed :
    (x : VenueOrderRow) (xs : List VenueOrderRow)
    → exists_row (has_id x.id) xs ≡ false
    → IsKeyed xs
    → IsKeyed (insert_row x xs)
insert_row-IsKeyed x [] fresh k = (refl, tt)
insert_row-IsKeyed x (r ∷ rs) fresh k = (
  ground (arith, k.0, exists_row-insert_row (has_id r.id) x rs),
  insert_row-IsKeyed x rs (ground arith) k.1,
)

-- A new order that has given no number yet leaves every next number as it is.
next_sequence-insert_row :
    (x : VenueOrderRow) (xs : List VenueOrderRow) (id : Text)
    → x.next_event_sequence ≡ 1
    → exists_row (has_id x.id) xs ≡ false
    → next_sequence id (insert_row x xs) ≡ next_sequence id xs
next_sequence-insert_row x [] id first fresh = ground arith
next_sequence-insert_row x (r ∷ rs) id first fresh =
    ground (arith, next_sequence-insert_row x rs id first)

Recorded-IsNumbered :
    {platform_id : Text} {db : Db} {d : OrderDecision} {db' : Db}
    → Recorded platform_id db d db'
    → IsNumbered db
    → IsNumbered db'
Recorded-IsNumbered {platform_id} {db} r i =
    let fresh = is_taken-has_id r.row.id platform_id db.orders r.fresh in
    let next = λ (id : Text). next_sequence-insert_row r.row db.orders id r.first fresh in
    record {
      once = λ id n. rw (r.placed, r.silent, next id) (i.once id n);
      positive = λ id. rw (r.placed, next id) (i.positive id);
      keyed = rw r.placed (insert_row-IsKeyed r.row db.orders fresh i.keyed);
    }

-- A decision of the venue keeps the numbering of events, whatever its outcome.
pub decide_order-IsNumbered :
    (env : Env) (command : OrderCommand) (db : Db)
    → IsNumbered db
    → IsNumbered (decide_order env command db).db
unfolding decide_order decide_order_tx
decide_order-IsNumbered env command db i =
    transaction_keeps IsNumbered env (decide_order_tx env command) db i λ d db' h.
      elim (Option-cases (env.uuid_in command.platform_order_id)) [
        | inl bad ↦ absurd (not_read bad h)
        | inr (id, e) ↦ elim (decide_order_tx-cases env command id db e h) [
          | inl (_, same_db) ↦ subst IsNumbered (sym same_db) i
          | inr r ↦ Recorded-IsNumbered r i
        ]
      ]
  where
    not_read :
        {d : OrderDecision} {db' : Db}
        → env.uuid_in command.platform_order_id ≡ none
        → decide_order_tx env command db ≡ ok (d, db')
        → ⊥
    not_read e h = ground arith

exists_row-is_for :
    (platform_id : Text) (xs : List VenueOrderRow) {row : VenueOrderRow}
    → find_row (is_for platform_id) xs ≡ some row
    → exists_row (has_id row.id) xs ≡ true
exists_row-is_for platform_id [] h = cc
exists_row-is_for platform_id (r ∷ rs) {row} h =
    ground (arith, exists_row-is_for platform_id rs {row = row})

pub find_row-is_for :
    (platform_id : Text) (xs : List VenueOrderRow) {row : VenueOrderRow}
    → IsKeyed xs
    → find_row (is_for platform_id) xs ≡ some row
    → find_row (has_id row.id) xs ≡ some row
find_row-is_for platform_id [] k h = cc
find_row-is_for platform_id (r ∷ rs) {row} k h = ground (
  arith,
  k.0,
  find_row-is_for platform_id rs {row = row} k.1,
  exists_row-is_for platform_id rs {row = row},
)

next_sequence-saved :
    (now : ℕ) (d : CancellationDecision) (order_id : Text) (xs : List VenueOrderRow) (id : Text)
    → next_sequence id (update_where (has_id order_id) (decision_saved now d) xs)
      ≡ next_sequence id xs
next_sequence-saved now d order_id [] id = refl
next_sequence-saved now d order_id (r ∷ rs) id =
    ground (arith, next_sequence-saved now d order_id rs id)

Answer-IsNumbered :
    {env : Env} {id : Text} {db : Db} {d : CancellationDecision} {db' : Db}
    → Answer env id db d db'
    → IsNumbered db
    → IsNumbered db'
Answer-IsNumbered (repeated row found f e) i = subst IsNumbered (sym e) i
Answer-IsNumbered {env} {id} {db} (answered_yes row found _ _ _ h) i =
    let t = cancel_accepted-tables env row db h in
    add_event-IsNumbered (cancelled_row env.now) row _ i (λ r. refl) (λ r. refl)
      (find_row-is_for id db.orders i.keyed found) refl refl t.0 t.1
Answer-IsNumbered {env} {id} {db} (answered_no row found _ _ _ h) i =
    let t = refuse_cancellation-tables env row db h in
    let f = decision_saved env.now (refused row.status) in
    let next = next_sequence-saved env.now (refused row.status) row.id db.orders in
    record {
      once = λ j n. rw (t.0, t.1, next j) (i.once j n);
      positive = λ j. rw (t.0, next j) (i.positive j);
      keyed = rw t.0 (update_where-IsKeyed (has_id row.id) f (λ r. refl) db.orders i.keyed);
    }

-- A cancellation at the venue keeps the numbering of events, whatever its outcome.
pub cancel_order-IsNumbered :
    (env : Env) (platform_order_id : Text) (db : Db)
    → IsNumbered db
    → IsNumbered (cancel_order env platform_order_id db).db
unfolding cancel_order cancel_order_tx
cancel_order-IsNumbered env platform_order_id db i =
    transaction_keeps IsNumbered env (cancel_order_tx env platform_order_id) db i λ d db' h.
      elim (Option-cases (env.uuid_in platform_order_id)) [
        | inl bad ↦ absurd (not_read bad h)
        | inr (id, e) ↦
            Answer-IsNumbered (cancel_order_tx-Answer env platform_order_id id db d db' e h) i
      ]
  where
    not_read :
        {d : CancellationDecision} {db' : Db}
        → env.uuid_in platform_order_id ≡ none
        → cancel_order_tx env platform_order_id db ≡ ok (d, db')
        → ⊥
    not_read e h = ground arith
