-- ===== src/Venue/Tests.antt =====
-- The venue's theorems at concrete inputs: one dish, one order of the platform.
mod System
use avito_kitchen.Base.{
  ◌/◌, ◌*◌, ◌+◌, ◌≡◌, ◌≤◌, refl, true, false, some, List, [], ◌∷◌, Text, codes, arith,
  Text_discrete, ℕ_discrete, map_get, map_set,
}
use avito_kitchen.Venue.Store.{
  OrderItem, OrderCommand, OrderDecision, CancellationDecision, MenuItemRow, VenueOrderRow,
  VenueOutboxRow, CallbackJob, ManagedOrderItem, Db, Env,
}
use avito_kitchen.Venue.Store
use avito_kitchen.Venue.Run.{transaction}
use avito_kitchen.Venue.Decide.{
  find_decision, max_version, menu_of_rows, Priced, price_items, managed_item, max_int64,
  accepted_decision,
}
use avito_kitchen.Venue.Decide.Apply.{
  reserve_stock, insert_items, insert_accepted, accept_order, decide_items, decide_new,
  decide_order_tx, decide_order, accepted_row,
}
use avito_kitchen.Venue.Decide.Totals.{items_total, AreAsRequested, price_items-agrees}
use avito_kitchen.Venue.Lifecycle.{callback_row, transition_order}
use avito_kitchen.Venue.Lifecycle.Events.{IsNumbered, transition_order-IsNumbered}
use avito_kitchen.Venue.Cancel.{
  cancel_order, cancel_order_tx, cancel_accepted, release_stock, refuse_cancellation, confirmed,
}
use avito_kitchen.Venue.Callbacks.{claim_callback, next_callback}
use avito_kitchen.Venue.Callbacks.Order.{IsNext, claim_callback-IsNext}
use avito_kitchen.Venue.Worker.{Round, process_one, second, callback_backoff}
use avito_kitchen.Venue.Worker.Rounds.{process_one-IsNumbered, callback_backoff_bounds}
use avito_kitchen.Venue.Numbering.{decide_order-IsNumbered, cancel_order-IsNumbered}
use avito_kitchen.Shared.Transaction.{ok, within_transaction}

-- A server that does not fail, at time 100.
abbrev pub env : Env
env = record { now = 100; uuid = λ n. some (n ∷ []); fails = λ _. false; uuid_in = λ t. some t }

abbrev pub dish : MenuItemRow
dish = record {
  external_id = codes "s1";
  name = codes "Soup";
  description = [];
  price_amount = 250;
  currency = codes "RUB";
  stock_quantity = some 10;
  is_available = true;
  category_external_id = codes "hot";
  category_name = codes "Hot";
  position = 0;
  updated_at = 1;
}

abbrev soup : OrderItem
soup = record {
  external_item_id = codes "s1";
  name = codes "Soup";
  quantity = 2;
  expected_unit_price = 250;
}

abbrev pub command : OrderCommand
command = record { platform_order_id = codes "order"; menu_version = 7; items = soup ∷ [] }

abbrev pub empty_db : Db
empty_db = record {
  is_accepting_orders = true;
  menu_versions = 7 ∷ [];
  menu_items = dish ∷ [];
  orders = [];
  order_items = [];
  outbox = [];
}

pub empty_db-IsNumbered : IsNumbered empty_db
empty_db-IsNumbered = record {
  once = λ id n. ground arith;
  positive = λ id. omega arith;
  keyed = tt;
}

decide_order-IsNumbered_example : IsNumbered (decide_order env command empty_db).db
decide_order-IsNumbered_example = decide_order-IsNumbered env command empty_db empty_db-IsNumbered

abbrev pub decision : OrderDecision
decision = accepted_decision (0 ∷ []) 500 (codes "RUB")

pub decided : (decide_order env command empty_db).result ≡ ok decision
unfolding decide_order decide_order_tx decide_new decide_items find_decision max_version
    menu_of_rows price_items accept_order reserve_stock insert_accepted insert_items transaction
    within_transaction Text_discrete ℕ_discrete map_get map_set
decided = refl

abbrev menu : List (Text × MenuItemRow)
menu = (codes "s1", dish) ∷ []

abbrev priced : Priced
priced = record {
  unavailable = [];
  items = managed_item soup dish ∷ [];
  total = 500;
  currency = codes "RUB";
}

priced_two : price_items menu [] 0 (soup ∷ []) ≡ ok (some priced)
unfolding price_items Text_discrete ℕ_discrete map_get
priced_two = refl

price_items-agrees_example :
    (priced.total ≡ 0 + items_total priced.items)
    × (priced.total ≤ max_int64)
    × AreAsRequested (soup ∷ []) priced.items
price_items-agrees_example =
    price_items-agrees menu [] 0 (soup ∷ []) priced (ground arith) priced_two refl

-- The database with the order accepted.
abbrev pub accepted : VenueOrderRow
accepted = accepted_row env command (0 ∷ []) (codes "order") 500 (codes "RUB")

abbrev pub accepted_db : Db
accepted_db = record empty_db { orders = accepted ∷ [] }

pub accepted_db-IsNumbered : IsNumbered accepted_db
accepted_db-IsNumbered = record {
  once = λ id n. ground arith;
  positive = λ id. ground arith;
  keyed = (refl, tt);
}

transition_order-IsNumbered_example :
    IsNumbered
      (transition_order env
        (0 ∷ [])
        Store.accepted
        Store.preparing
        Store.order_preparing
        accepted_db).db
transition_order-IsNumbered_example =
    transition_order-IsNumbered env (0 ∷ []) Store.accepted Store.preparing Store.order_preparing
      accepted_db accepted_db-IsNumbered

cancel_order-IsNumbered_example : IsNumbered (cancel_order env (codes "order") accepted_db).db
cancel_order-IsNumbered_example =
    cancel_order-IsNumbered env (codes "order") accepted_db accepted_db-IsNumbered

pub cancelled : (cancel_order env (codes "order") accepted_db).result ≡ ok confirmed
unfolding cancel_order cancel_order_tx cancel_accepted release_stock transaction within_transaction
    Text_discrete ℕ_discrete
cancelled = refl

-- Two events of the order wait; the second would be due first.
abbrev first_event : VenueOutboxRow
first_event = callback_row env (1 ∷ []) (0 ∷ []) (2 ∷ []) 1 Store.order_preparing

abbrev second_event : VenueOutboxRow
second_event = record (callback_row env (3 ∷ []) (0 ∷ []) (4 ∷ []) 2 Store.order_ready) {
  available_at = 50;
}

abbrev waiting_db : Db
waiting_db = record accepted_db { outbox = second_event ∷ first_event ∷ [] }

abbrev job : CallbackJob
job = record {
  id = 1 ∷ [];
  platform_order_id = codes "order";
  lock_token = 0 ∷ [];
  payload = first_event.payload;
  attempts = 1;
}

abbrev claimed_db : Db
claimed_db = record waiting_db {
  outbox =
      second_event
      ∷ record first_event { locked_until = some 130; lock_token = some (0 ∷ []); attempts = 1 }
      ∷ [];
}

claimed : claim_callback env 30 waiting_db ≡ ok (job, claimed_db)
unfolding claim_callback next_callback Text_discrete ℕ_discrete
claimed = refl

claim_callback-IsNext_example : (r : VenueOutboxRow) × IsNext 100 job waiting_db r
claim_callback-IsNext_example = claim_callback-IsNext env 30 waiting_db job claimed_db claimed

abbrev round : Round
round = record {
  claim_env = env;
  finish_env = env;
  lease = 30;
  retry_now = 110;
  jitter = λ base. 0;
  sends = λ j. true;
  others = λ db. db;
}

-- The database with the first event of the order waiting.
abbrev started_db : Db
started_db = record accepted_db {
  orders = record accepted { status = Store.preparing; next_event_sequence = 2 } ∷ [];
  outbox = first_event ∷ [];
}

started_db-IsNumbered : IsNumbered started_db
started_db-IsNumbered = record {
  once = λ id n. ground arith;
  positive = λ id. ground arith;
  keyed = (refl, tt);
}

process_one-IsNumbered_example : IsNumbered (process_one round started_db).1
process_one-IsNumbered_example =
    process_one-IsNumbered round started_db (λ d i. i) started_db-IsNumbered

callback_backoff_bounds_example :
    (second ≤ callback_backoff 9 (λ base. base / 4))
    × (callback_backoff 9 (λ base. base / 4) ≤ 80 * second)
callback_backoff_bounds_example = callback_backoff_bounds 9 (λ base. base / 4) (λ base. omega arith)
