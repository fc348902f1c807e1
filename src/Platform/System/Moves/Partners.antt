-- ===== src/Platform/System/Moves/Partners.antt =====
-- Moves under `RecordOrderEvent` of internal/platform/repository/events.go, and under
-- `ReplaceMenu` and `UpdateAvailability` of partner.go.
use avito_kitchen.Base.{
  ℕ, suc, ◌≡◌, refl, sym, subst, Option, List, [], ◌∷◌, Text, update_where, same, arith, inl, inr,
  Option-cases,
}
use avito_kitchen.Platform.Store.{EventType, OrderRow, OutboxRow, Db, Env}
use avito_kitchen.Platform.Store
use avito_kitchen.Platform.Domain.{OrderEvent}
use avito_kitchen.Platform.Events.{
  event_transition, event_applied, is_cancel_job, settled, record_order_event_tx,
  record_order_event,
}
use avito_kitchen.Platform.Partner.{
  MenuItem, MenuCategory, MenuSnapshot, AvailabilityUpdate, item_off, category_off, check_version,
  upsert_category, upsert_items, upsert_item, upsert_categories, store_menu, replace_menu_tx,
  replace_menu, update_availability,
}
use avito_kitchen.Platform.Consistency.{IsConsistent, transaction_keeps}
use avito_kitchen.Platform.Consistency.Recording.{
  settled_jobs, apply_event-tables, Delivery, repeated, applied, record_order_event_tx-Delivery,
}
use avito_kitchen.Platform.System.Jobs.{OutboxChange, updated, untouched}
use avito_kitchen.Platform.System.Machine.{by_callback, by_nobody}
use avito_kitchen.Platform.System.Moves.{
  Advances, refl-Advances, unmoved-Advances, update_id-Advances,
}
use avito_kitchen.Shared.Transaction.{ok, Result-cases}

settled_jobs-OutboxChange :
    (type : EventType) (now : ℕ) (id : Text) (xs : List OutboxRow) {ys : List OutboxRow}
    → ys ≡ settled_jobs type now id xs
    → OutboxChange xs ys
settled_jobs-OutboxChange Store.order_cancelled now id xs e =
    updated (is_cancel_job id) (settled now)
      (λ r. record { id = refl; aggregate_id = refl; event_type = refl }) e
settled_jobs-OutboxChange _ now id xs e = untouched e

record_order_event_tx-Advances :
    (env : Env) (venue_id order_id : Text) (event : OrderEvent) {db db' : Db}
    → IsConsistent db
    → Delivery env venue_id order_id event db db'
    → Advances by_callback db db'
unfolding event_transition
record_order_event_tx-Advances env venue_id order_id event {db} c (repeated e) =
    subst (Advances by_callback db) (sym e) (refl-Advances _ db)
record_order_event_tx-Advances env venue_id order_id event {db} c
      (applied id event_id row target _ found _ _ moves h) =
    let (e, f) =
      apply_event-tables env id row.status target (record event { event_id = event_id }) db h in
    update_id-Advances id (event_applied env.now (record event { event_id = event_id }) target)
      (λ r. refl) (settled_jobs-OutboxChange event.type env.now id db.outbox f) e
      (λ o found'. ground (arith, c.sound id))

pub record_order_event-Advances :
    (env : Env) (venue_id order_id : Text) (event : OrderEvent) (db : Db)
    → IsConsistent db
    → Advances by_callback db (record_order_event env venue_id order_id event db).db
unfolding record_order_event
record_order_event-Advances env venue_id order_id event db c =
    transaction_keeps (Advances by_callback db) env
      (record_order_event_tx env venue_id order_id event) db (refl-Advances _ db)
      λ a db' h.
        record_order_event_tx-Advances env venue_id order_id event c
          (record_order_event_tx-Delivery env venue_id order_id event db db' h)

-- The tables of the orders, untouched.
abbrev pub IsSameOrders : Db → Db → Type 0
IsSameOrders db db' = (db'.orders ≡ db.orders) × (db'.outbox ≡ db.outbox)

upsert_category-orders :
    (env : Env) (id venue_id : Text) (position : ℕ) (category : MenuCategory) (db : Db)
    → IsSameOrders db (upsert_category env id venue_id position category db).1
unfolding upsert_category
upsert_category-orders env id venue_id position category db = ground arith

upsert_items-orders :
    (env : Env) (ids : ℕ → Option Text) (venue_id category_id : Text) (position : ℕ)
    (items : List MenuItem) (db : Db) {db' : Db}
    → upsert_items env ids venue_id category_id position items db ≡ ok db'
    → IsSameOrders db db'
unfolding upsert_items
upsert_items-orders env ids venue_id category_id position [] db h = ground arith
upsert_items-orders env ids venue_id category_id position (i ∷ is) db {db'} h =
    elim (Option-cases (ids position)) [
      | inl bad ↦ absurd (ground arith)
      | inr (id, e) ↦
          upsert_items-orders env ids venue_id category_id (suc position) is
            (record db {
              menu_items = upsert_item env id venue_id category_id position i db.menu_items;
            })
            {db' = db'} (ground arith)
    ]

upsert_categories-orders :
    (env : Env) (item_ids : ℕ → ℕ → Option Text) (venue_id : Text) (position : ℕ)
    (categories : List MenuCategory) (db : Db) {db' : Db}
    → upsert_categories env item_ids venue_id position categories db ≡ ok db'
    → IsSameOrders db db'
unfolding upsert_categories
upsert_categories-orders env item_ids venue_id position [] db h = ground arith
upsert_categories-orders env item_ids venue_id position (c ∷ cs) db {db'} h =
    elim (Option-cases (env.uuid position)) [
      | inl bad ↦ absurd (ground arith)
      | inr (id, e) ↦
          let stored = upsert_category env id venue_id position c db in
          let kept = upsert_category-orders env id venue_id position c db in
          elim (Result-cases
            (upsert_items env (item_ids position) venue_id stored.0 0 c.items stored.1)) [
              | inr (failure, f) ↦ absurd (ground arith)
              | inl (db₁, f) ↦
                  let first =
                    upsert_items-orders env (item_ids position) venue_id stored.0 0 c.items stored.1
                      f in
                  let rest =
                    upsert_categories-orders env item_ids venue_id (suc position) cs db₁ {db' = db'}
                      (ground arith) in
                  (cc, cc)
            ]
    ]

store_menu-orders :
    (env : Env) (item_ids : ℕ → ℕ → Option Text) (venue_id : Text) (snapshot : MenuSnapshot)
    (hash : Text) (db : Db) {db' : Db}
    → store_menu env item_ids venue_id snapshot hash db ≡ ok (tt, db')
    → IsSameOrders db db'
unfolding store_menu
store_menu-orders env item_ids venue_id snapshot hash db h =
    let start = record db {
      menu_items = update_where (λ r. same r.venue_id venue_id) (item_off env.now) db.menu_items;
      menu_categories =
          update_where (λ r. same r.venue_id venue_id) (category_off env.now) db.menu_categories;
    } in
    elim (Result-cases (upsert_categories env item_ids venue_id 0 snapshot.categories start)) [
      | inr (failure, f) ↦ absurd (ground arith)
      | inl (db₁, f) ↦
          let kept = upsert_categories-orders env item_ids venue_id 0 snapshot.categories start f in
          ground arith
    ]

replace_menu_tx-orders :
    (env : Env) (item_ids : ℕ → ℕ → Option Text) (venue_id : Text) (snapshot : MenuSnapshot)
    (hash : Text) (db : Db) {db' : Db}
    → replace_menu_tx env item_ids venue_id snapshot hash db ≡ ok (tt, db')
    → IsSameOrders db db'
unfolding replace_menu_tx check_version
replace_menu_tx-orders env item_ids venue_id snapshot hash db {db'} h =
    elim (Option-cases (env.uuid_in venue_id)) [
      | inl bad ↦ absurd (ground arith)
      | inr (id, e) ↦ elim (Result-cases (store_menu env item_ids id snapshot hash db)) [
        | inr (failure, f) ↦ ground arith
        | inl ((_, db₁), f) ↦
            let kept = store_menu-orders env item_ids id snapshot hash db f in ground arith
      ]
    ]

pub replace_menu-orders :
    (env : Env) (item_ids : ℕ → ℕ → Option Text) (venue_id : Text) (snapshot : MenuSnapshot)
    (hash : Text) (db : Db)
    → IsSameOrders db (replace_menu env item_ids venue_id snapshot hash db).db
unfolding replace_menu
replace_menu-orders env item_ids venue_id snapshot hash db =
    transaction_keeps (IsSameOrders db) env (replace_menu_tx env item_ids venue_id snapshot hash) db
      (refl, refl) λ a db' h. replace_menu_tx-orders env item_ids venue_id snapshot hash db h

pub update_availability-orders :
    (env : Env) (venue_id : Text) (update : AvailabilityUpdate) (db : Db) {db' : Db}
    → update_availability env venue_id update db ≡ ok db'
    → IsSameOrders db db'
unfolding update_availability
update_availability-orders env venue_id update db h = ground arith

pub same_orders-Advances : {db db' : Db} → IsSameOrders db db' → Advances by_nobody db db'
same_orders-Advances (e, f) = unmoved-Advances e (untouched f)

pub same_orders-IsConsistent :
    {db db' : Db} → IsConsistent db → IsSameOrders db db' → IsConsistent db'
same_orders-IsConsistent c (e, f) = record {
  keyed = rw e c.keyed;
  sound = λ id. rw e (c.sound id);
  jobs = λ id type. rw (e, f) (c.jobs id type);
}
