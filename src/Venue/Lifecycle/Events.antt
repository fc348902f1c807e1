-- ===== src/Venue/Lifecycle/Events.antt =====
-- The numbering of the events of an order: `next_event_sequence` and `venue_outbox`.
use avito_kitchen.Base.{
  ℕ, ◌+◌, ◌<◌, ◌≡◌, refl, Bool, true, false, none, some, List, [], ◌∷◌, Text, same, ◌&&◌, ◌==◌, bit,
  if◌then◌else◌, find_row, exists_row, update_where, count_where, insert_row, arith, Option-cases,
  Bool-cases, inl, inr, subst, sym, count_where-insert_row, ltb, coalesce,
}
use avito_kitchen.Venue.Store.{
  OrderStatus, EventType, ManagedOrder, VenueOrderRow, VenueOutboxRow, Db, Env, RepoError,
}
use avito_kitchen.Venue.Store
use avito_kitchen.Venue.Lifecycle.{
  has_id, advanced_row, callback_row, advance, transition_order_tx, transition_order,
}
use avito_kitchen.Venue.Run.{Tx, transaction}
use avito_kitchen.Shared.Transaction.{ok, within_transaction_keeps}

-- The events of an order with a sequence number.
abbrev pub is_event : Text → ℕ → VenueOutboxRow → Bool
is_event order_id n r = same r.venue_order_id order_id && r.sequence == n

abbrev pub next_sequence : Text → List VenueOrderRow → ℕ
next_sequence id orders = elim (find_row (has_id id) orders) [
  | none ↦ 1
  | some o ↦ o.next_event_sequence
]

-- Whether `n` is among 1, …, `next - 1`.
abbrev pub is_used : ℕ → ℕ → Bool
is_used next n = ltb 0 n && ltb n next

-- The primary key of `venue_orders`.
abbrev pub IsKeyed : List VenueOrderRow → Type 0
IsKeyed [] = Unit
IsKeyed (r ∷ rs) = (exists_row (has_id r.id) rs ≡ false) × IsKeyed rs

-- Each order has exactly one event for each number from 1 up to the next that it will give.
pub record IsNumbered (db : Db) : Type 0 where
  pub once :
      (id : Text) (n : ℕ)
      → count_where (is_event id n) db.outbox ≡ bit (is_used (next_sequence id db.orders) n)
  pub positive : (id : Text) → 0 < next_sequence id db.orders
  pub keyed : IsKeyed db.orders

-- A transaction keeps what each of its successful runs keeps.
pub transaction_keeps :
    {A : Type 0} (P : Db → Type 0) (env : Env) (op : Db → Tx A) (db : Db)
    → P db
    → ((a : A) (db' : Db) → op db ≡ ok (a, db') → P db')
    → P (transaction env op db).db
unfolding transaction
transaction_keeps P env op db h keep = within_transaction_keeps P _ _ _ _ op db h keep

next_sequence-update :
    (f : VenueOrderRow → VenueOrderRow)
    → ((r : VenueOrderRow) → (f r).id ≡ r.id)
    → (id order_id : Text) (xs : List VenueOrderRow)
    → next_sequence id (update_where (has_id order_id) f xs) ≡ (
        if same order_id id
        then elim (find_row (has_id order_id) xs) [ none ↦ 1 | some o ↦ (f o).next_event_sequence ]
        else next_sequence id xs)
next_sequence-update f keeps id order_id [] = ground arith
next_sequence-update f keeps id order_id (r ∷ rs) =
    ground (arith, keeps r, next_sequence-update f keeps id order_id rs)

module _ (p : VenueOrderRow → Bool) (f : VenueOrderRow → VenueOrderRow)
    (keeps : (r : VenueOrderRow) → (f r).id ≡ r.id) where
  exists_row-update_where :
      (id : Text) (xs : List VenueOrderRow)
      → exists_row (has_id id) (update_where p f xs) ≡ exists_row (has_id id) xs
  exists_row-update_where id [] = refl
  exists_row-update_where id (r ∷ rs) = ground (arith, keeps r, exists_row-update_where id rs)

  pub update_where-IsKeyed : (xs : List VenueOrderRow) → IsKeyed xs → IsKeyed (update_where p f xs)
  update_where-IsKeyed [] h = tt
  update_where-IsKeyed (r ∷ rs) h =
      (ground (arith, keeps r, exists_row-update_where r.id rs, h.0), update_where-IsKeyed rs h.1)

-- One more event of an order, and its next number one higher.
pub add_event-IsNumbered :
    {db db' : Db} (f : VenueOrderRow → VenueOrderRow) (row : VenueOrderRow) (event : VenueOutboxRow)
    → IsNumbered db
    → ((r : VenueOrderRow) → (f r).id ≡ r.id)
    → ((r : VenueOrderRow) → (f r).next_event_sequence ≡ r.next_event_sequence + 1)
    → find_row (has_id row.id) db.orders ≡ some row
    → event.venue_order_id ≡ row.id
    → event.sequence ≡ row.next_event_sequence
    → db'.orders ≡ update_where (has_id row.id) f db.orders
    → db'.outbox ≡ insert_row event db.outbox
    → IsNumbered db'
add_event-IsNumbered {db} f row event i keeps steps found of_row numbered e g = record {
  once = λ id n.
      rw (e, g)
        (ground (
          arith,
          i.once id n,
          i.once row.id n,
          i.positive row.id,
          steps row,
          count_where-insert_row (is_event id n) event db.outbox,
          next_sequence-update f keeps id row.id db.orders,
        ));
  positive = λ id.
      rw e (
        ground (arith, i.positive id, steps row, next_sequence-update f keeps id row.id db.orders));
  keyed = rw e (update_where-IsKeyed (has_id row.id) f keeps db.orders i.keyed);
}

find_row-id :
    (id : Text) (xs : List VenueOrderRow) {r : VenueOrderRow}
    → find_row (has_id id) xs ≡ some r
    → r.id ≡ id
find_row-id id [] h = cc
find_row-id id (x ∷ xs) {r} h = ground (arith, find_row-id id xs {r = r})

pub advance-tables :
    (env : Env) (row : VenueOrderRow) (target : OrderStatus) (type : EventType) (db : Db)
    {order : ManagedOrder} {db' : Db}
    → advance env row target type db ≡ ok (order, db')
    → (db'.orders ≡ update_where (has_id row.id) (advanced_row env.now target) db.orders)
      × (db'.outbox
          ≡ insert_row
              (callback_row env
                (coalesce (env.uuid 1) [])
                row.id
                (coalesce (env.uuid 0) [])
                row.next_event_sequence
                type)
              db.outbox)
unfolding advance
advance-tables env row target type db h = ground arith

-- A transition that succeeds finds its order in the target state already, and changes nothing, or
-- in the expected one.
pub data Transition (env : Env) (order_id : Text) (expected target : OrderStatus) (type : EventType)
    (order : ManagedOrder) (db db' : Db) : Type 0 where
  repeated :
      (row : VenueOrderRow)
      → row.status ≡ target
      → db' ≡ db
      → Transition env order_id expected target type order db db'
  advanced :
      (row : VenueOrderRow)
      → find_row (has_id row.id) db.orders ≡ some row
      → row.status ≡ expected
      → advance env row target type db ≡ ok (order, db')
      → Transition env order_id expected target type order db db'

same_status→eq : (a b : OrderStatus) → Store.same_status a b ≡ true → a ≡ b
same_status→eq a b h = ground arith

pub transition_order_tx-Transition :
    (env : Env) (order_id : Text) (expected target : OrderStatus) (type : EventType) (db : Db)
    (order : ManagedOrder) (db' : Db)
    → transition_order_tx env order_id expected target type db ≡ ok (order, db')
    → Transition env order_id expected target type order db db'
unfolding transition_order_tx
transition_order_tx-Transition env order_id expected target type db order db' h =
    elim (Option-cases (env.uuid_in order_id)) [
      | inl bad ↦ absurd (ground arith)
      | inr (id, e) ↦ elim (Option-cases (find_row (has_id id) db.orders)) [
        | inl missing ↦ absurd (ground arith)
        | inr (row, found) ↦
            let own = find_row-id id db.orders found in
            elim (Bool-cases (Store.same_status row.status target)) [
              | inl there ↦ repeated row (same_status→eq _ _ there) (ground arith)
              | inr elsewhere ↦ elim (Bool-cases (Store.same_status row.status expected)) [
                | inr wrong ↦ absurd (ground arith)
                | inl right ↦
                    advanced row
                      (subst (λ (k : Text). find_row (has_id k) db.orders ≡ some row) (sym own)
                        found)
                      (same_status→eq _ _ right) (ground arith)
              ]
            ]
      ]
    ]

-- A transition of an order at the venue keeps the numbering of events (the orders have different
-- identifiers, and each has exactly one event for each number from 1 up to the next that it will
-- give), whatever its outcome.
pub transition_order-IsNumbered :
    (env : Env) (order_id : Text) (expected target : OrderStatus) (type : EventType) (db : Db)
    → IsNumbered db
    → IsNumbered (transition_order env order_id expected target type db).db
unfolding transition_order
transition_order-IsNumbered env order_id expected target type db i =
    transaction_keeps IsNumbered env (transition_order_tx env order_id expected target type) db i
      λ order db' h.
        go (transition_order_tx-Transition env order_id expected target type db order db' h)
  where
    go :
        {order : ManagedOrder} {db' : Db}
        → Transition env order_id expected target type order db db'
        → IsNumbered db'
    go (repeated row _ e) = subst IsNumbered (sym e) i
    go (advanced row found _ h) =
        let (e, f) = advance-tables env row target type db h in
        add_event-IsNumbered (advanced_row env.now target) row _ i (λ r. refl) (λ r. refl) found
          refl refl e f
