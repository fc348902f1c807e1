-- ===== src/Venue/Decide/Stable.antt =====
-- The decision that the venue saves: `DecideOrder` of internal/venue/repository/orders.go.
use avito_kitchen.Base.{
  ℕ, ◌≡◌, ◌⊎◌, ◌∙◌, ap, sym, update_where, refl, false, Option, none, some, List, [], ◌∷◌, Text,
  find_row, exists_row, insert_row, arith, suc, select, coalesce, ◌==◌, Option-cases, Bool-cases,
  inl, inr,
}
use avito_kitchen.Venue.Store.{
  OrderItem, OrderCommand, OrderDecision, VenueOrderRow, Db, Env, Fault, RepoError,
}
use avito_kitchen.Venue.Store
use avito_kitchen.Venue.Decide.{
  is_for, is_taken, find_decision, insert_rejected, max_version, price_items, menu_of_rows,
  is_requested, rejected_decision, rejected_row, accepted_decision, Priced,
}
use avito_kitchen.Venue.Decide.Apply.{
  reserve_stock, insert_items, insert_accepted, accept_order, decide_items, decide_new,
  decide_order_tx, is_item, take_stock, item_row, add_item, accepted_row, is_empty,
}
use avito_kitchen.Shared.Transaction.{ok, Result-cases}

-- The decision that stands in the table for an order of the platform.
abbrev pub saved_decision : Text → List VenueOrderRow → Option OrderDecision
saved_decision platform_id orders = elim (find_row (is_for platform_id) orders) [
  | none ↦ none
  | some r ↦ some r.decision_details
]

saved_decision-insert_row :
    (id platform_id : Text) (x : VenueOrderRow) (xs : List VenueOrderRow)
    → exists_row (is_taken id platform_id) xs ≡ false
    → x.platform_order_id ≡ platform_id
    → saved_decision platform_id (insert_row x xs) ≡ some x.decision_details
saved_decision-insert_row id platform_id x [] fresh e = ground arith
saved_decision-insert_row id platform_id x (r ∷ rs) fresh e =
    ground (arith, saved_decision-insert_row id platform_id x rs)

insert_items-tables :
    (env : Env) (order_id currency : Text) (n : ℕ) (items : List Store.ManagedOrderItem) (db : Db)
    {db' : Db}
    → insert_items env order_id currency n items db ≡ ok db'
    → (db'.orders ≡ db.orders) × (db'.outbox ≡ db.outbox)
unfolding insert_items
insert_items-tables env order_id currency n [] db h = ground arith
insert_items-tables env order_id currency n (item ∷ items) db {db'} h =
    elim (Option-cases (env.uuid (suc n))) [
      | inl bad ↦ absurd (ground arith)
      | inr (id, e) ↦
          insert_items-tables env order_id currency (suc n) items
            (add_item (item_row id order_id currency n item) db) {db' = db'} (ground arith)
    ]

reserve_stock-tables :
    (env : Env) (items : List OrderItem) (db : Db) {db' : Db}
    → reserve_stock env items db ≡ ok db'
    → (db'.orders ≡ db.orders) × (db'.outbox ≡ db.outbox)
unfolding reserve_stock
reserve_stock-tables env [] db h = ground arith
reserve_stock-tables env (item ∷ items) db {db'} h =
    reserve_stock-tables env items
      (record db {
        menu_items = update_where (is_item item) (take_stock env.now item.quantity) db.menu_items;
      })
      {db' = db'} (ground arith)

-- What a first decision does: one new row, with the decision, and no event.
pub record Recorded (platform_id : Text) (db : Db) (d : OrderDecision) (db' : Db) : Type 0 where
  pub row : VenueOrderRow
  pub fresh : exists_row (is_taken row.id platform_id) db.orders ≡ false
  pub placed : db'.orders ≡ insert_row row db.orders
  pub silent : db'.outbox ≡ db.outbox
  pub decided : row.decision_details ≡ d
  pub of_order : row.platform_order_id ≡ platform_id
  pub first : row.next_event_sequence ≡ 1

insert_rejected-Recorded :
    (env : Env) (command : OrderCommand) (platform_id : Text) (decision : OrderDecision) (db : Db)
    {d : OrderDecision} {db' : Db}
    → insert_rejected env command platform_id decision db ≡ ok (d, db')
    → Recorded platform_id db d db'
unfolding insert_rejected
insert_rejected-Recorded env command platform_id decision db h = record {
  row = rejected_row env command (coalesce (env.uuid 0) []) platform_id decision;
  fresh = ground arith;
  placed = ground arith;
  silent = ground arith;
  decided = ground arith;
  of_order = refl;
  first = refl;
}

insert_accepted-tables :
    (env : Env) (command : OrderCommand) (platform_id : Text) (p : Priced) (id : Text) (db : Db)
    {d : OrderDecision} {db' : Db}
    → insert_accepted env command platform_id p id db ≡ ok (d, db')
    → (exists_row (is_taken id platform_id) db.orders ≡ false)
      × (db'.orders
          ≡ insert_row (accepted_row env command id platform_id p.total p.currency) db.orders)
      × (db'.outbox ≡ db.outbox)
      × (d ≡ accepted_decision id p.total p.currency)
unfolding insert_accepted
insert_accepted-tables env command platform_id p id db h =
    let start = record db {
      orders = insert_row (accepted_row env command id platform_id p.total p.currency) db.orders;
    } in
    elim (Result-cases (insert_items env id p.currency 0 p.items start)) [
      | inr (e, failed) ↦ absurd (ground arith)
      | inl (db₂, inserted) ↦
          ground (arith, insert_items-tables env id p.currency 0 p.items start inserted)
    ]

accept_order-Recorded :
    (env : Env) (command : OrderCommand) (platform_id : Text) (p : Priced) (db : Db)
    {d : OrderDecision} {db' : Db}
    → accept_order env command platform_id p db ≡ ok (d, db')
    → Recorded platform_id db d db'
unfolding accept_order
accept_order-Recorded env command platform_id p db {d = d} {db' = db'} h =
    elim (Result-cases (reserve_stock env command.items db)) [
      | inr (e, failed) ↦ absurd (ground arith)
      | inl (db₁, reserved) ↦ elim (Option-cases (env.uuid 0)) [
        | inl bad ↦ absurd (ground arith)
        | inr (id, e) ↦
            let t =
              insert_accepted-tables env command platform_id p id db₁ {d = d} {db' = db'}
                (ground arith) in
            let kept = reserve_stock-tables env command.items db reserved in
            record {
              row = accepted_row env command id platform_id p.total p.currency;
              fresh = rw (sym kept.0) t.0;
              placed = t.1 ∙ ap (insert_row _) kept.0;
              silent = t.2 ∙ kept.1;
              decided = sym t.3;
              of_order = refl;
              first = refl;
            }
      ]
    ]

decide_items-Recorded :
    (env : Env) (command : OrderCommand) (platform_id : Text) (version : ℕ) (db : Db)
    {d : OrderDecision} {db' : Db}
    → decide_items env command platform_id version db ≡ ok (d, db')
    → Recorded platform_id db d db'
unfolding decide_items
decide_items-Recorded env command platform_id version db {d = d} {db' = db'} h =
    elim (Result-cases (
      price_items (menu_of_rows [] (select (is_requested command.items) db.menu_items)) [] 0
        command.items)) [
          | inr (e, failed) ↦ absurd (ground arith)
          | inl (none, priced) ↦
              insert_rejected-Recorded env command platform_id
                (rejected_decision Store.menu_changed version []) db {d = d} {db' = db'}
                (ground arith)
          | inl (some p, priced) ↦ elim (Bool-cases (is_empty p.unavailable)) [
            | inl full ↦
                accept_order-Recorded env command platform_id p db {d = d} {db' = db'}
                  (ground arith)
            | inr short ↦
                insert_rejected-Recorded env command platform_id
                  (rejected_decision Store.items_unavailable version p.unavailable) db {d = d}
                  {db' = db'} (ground arith)
          ]
        ]

decide_new-Recorded :
    (env : Env) (command : OrderCommand) (platform_id : Text) (db : Db) {d : OrderDecision}
    {db' : Db}
    → decide_new env command platform_id db ≡ ok (d, db')
    → Recorded platform_id db d db'
unfolding decide_new
decide_new-Recorded env command platform_id db {d = d} {db' = db'} h =
    elim (Option-cases (max_version db.menu_versions)) [
      | inl bad ↦ absurd (ground arith)
      | inr (version, e) ↦ elim (Bool-cases db.is_accepting_orders) [
        | inr closed ↦
            insert_rejected-Recorded env command platform_id
              (rejected_decision Store.venue_closed version []) db {d = d} {db' = db'}
              (ground arith)
        | inl opened ↦ elim (Bool-cases (command.menu_version == version)) [
          | inr changed ↦
              insert_rejected-Recorded env command platform_id
                (rejected_decision Store.menu_changed version []) db {d = d} {db' = db'}
                (ground arith)
          | inl current ↦
              decide_items-Recorded env command platform_id version db {d = d} {db' = db'}
                (ground arith)
        ]
      ]
    ]

Recorded-saves :
    {platform_id : Text} {db : Db} {d : OrderDecision} {db' : Db}
    → Recorded platform_id db d db'
    → saved_decision platform_id db'.orders ≡ some d
Recorded-saves {platform_id} {db} r = rw r.placed (
    saved_decision-insert_row r.row.id platform_id r.row db.orders r.fresh r.of_order
    ∙ ap some r.decided)

-- A command that is answered meets the saved decision, or records one.
pub decide_order_tx-cases :
    (env : Env) (command : OrderCommand) (id : Text) (db : Db) {d : OrderDecision} {db' : Db}
    → env.uuid_in command.platform_order_id ≡ some id
    → decide_order_tx env command db ≡ ok (d, db')
    → ((saved_decision id db.orders ≡ some d) × (db' ≡ db)) ⊎ Recorded id db d db'
unfolding decide_order_tx find_decision
decide_order_tx-cases env command id db {d = d} {db' = db'} e h =
    elim (Option-cases (find_row (is_for id) db.orders)) [
      | inr (row, found) ↦ inl (ground arith)
      | inl missing ↦ inr (decide_new-Recorded env command id db {d = d} {db' = db'} (ground arith))
    ]

pub decide_order_tx-saves :
    (env : Env) (command : OrderCommand) (id : Text) (db : Db) {d : OrderDecision} {db' : Db}
    → env.uuid_in command.platform_order_id ≡ some id
    → decide_order_tx env command db ≡ ok (d, db')
    → saved_decision id db'.orders ≡ some d
decide_order_tx-saves env command id db {db' = db'} e h =
    elim (decide_order_tx-cases env command id db {db' = db'} e h) [
      | inl (saved, same_db) ↦ rw same_db saved
      | inr r ↦ Recorded-saves r
    ]

pub decide_order_tx-saved :
    (env : Env) (command : OrderCommand) (id : Text) (db : Db) {d : OrderDecision}
    → ((f : Fault) → env.fails f ≡ false)
    → env.uuid_in command.platform_order_id ≡ some id
    → saved_decision id db.orders ≡ some d
    → decide_order_tx env command db ≡ ok (d, db)
unfolding decide_order_tx find_decision
decide_order_tx-saved env command id db smooth e h =
    elim (Option-cases (find_row (is_for id) db.orders)) [
      | inl missing ↦ absurd (ground arith)
      | inr (row, found) ↦
          ground (arith, smooth Store.lock_platform_order, smooth Store.find_decision)
    ]
