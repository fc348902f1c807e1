-- ===== src/Platform/Tests.antt =====
-- The platform's theorems at concrete inputs: one venue, one dish, one order.
mod Answers
mod System
mod Http
mod Events
use avito_kitchen.Base.{
  ℕ, ◌⊎◌, ◌==◌, ◌||◌, leb, ◌*◌, ◌+◌, ◌≡◌, ◌≤◌, ◌/◌, refl, true, false, none, some, List, [], ◌∷◌,
  Text, codes, arith, Text_discrete, ℕ_discrete, map_get, map_set,
}
use avito_kitchen.Platform.Service.{map_repository_error, validate_items}
use avito_kitchen.Platform.Service.Answers.{IsUnexpected, map_repository_error-IsUnexpected}
use avito_kitchen.Platform.Service.Items.{AreSound, validate_items-AreSound}
use avito_kitchen.Shared.Errors.{internal_error}
use avito_kitchen.Platform.Store.{OrderRow, OutboxRow, VenueRow, MenuItemRow, Db, Env, RepoError}
use avito_kitchen.Platform.Store
use avito_kitchen.Platform.Domain.{
  Order, OrderItem, OrderItemRequest, CreateOrderCommand, OrderEvent, OutboxJob, VenueOrderDecision,
  VenueCancellationDecision, accepted_order, cancelled_order,
}
use avito_kitchen.Platform.Orders.{cancel_order, load_items, insert_order_history}
use avito_kitchen.Platform.Checkout.{
  price_items, max_int64, find_idempotent_order, lock_checkout_venue, cast_ids, quantities,
  scan_items, insert_items,
}
use avito_kitchen.Platform.Checkout.Create.{
  create_order, create_order_tx, price_request, insert_checkout, row_of_command, confirm_job,
}
use avito_kitchen.Platform.Outbox.{claim_outbox, next_job}
use avito_kitchen.Platform.Outbox.Finish.{resolve_outbox, resolve_cancellation, retry_outbox}
use avito_kitchen.Platform.Events.{record_order_event}
use avito_kitchen.Platform.Worker.{Round, retry_backoff, second}
use avito_kitchen.Platform.Worker.Backoff.{retry_backoff_bounds}
use avito_kitchen.Platform.Client.{
  ClientError, DecisionBody, Exchange, body, status, no_answer, read_decision,
}
use avito_kitchen.Platform.Client.Trust.{read_decision-accepted, read_decision-retryable}
use avito_kitchen.Platform.Consistency.{IsConsistent, IsIssued}
use avito_kitchen.Platform.Consistency.Placing.{create_order-IsConsistent}
use avito_kitchen.Platform.Consistency.Cancelling.{cancel_order-IsConsistent}
use avito_kitchen.Platform.Consistency.Finishing.{
  resolve_outbox-IsConsistent, resolve_cancellation-IsConsistent, retry_outbox-IsConsistent,
}
use avito_kitchen.Platform.Consistency.Recording.{record_order_event-IsConsistent}
use avito_kitchen.Platform.Consistency.Working.{AreKeyed, claim_outbox-IsIssued}
use avito_kitchen.Shared.Transaction.{ok, err, within_transaction}
use avito_kitchen.Platform.Run.{transaction}

-- A server that does not fail, at time 100.
abbrev pub env : Env
env = record { now = 100; uuid = λ n. some (n ∷ []); fails = λ _. false; uuid_in = λ t. some t }

abbrev pub venue : VenueRow
venue = record {
  id = codes "venue";
  name = codes "Kitchen";
  description = [];
  address = [];
  currency = codes "RUB";
  minimum_order_amount = 300;
  is_accepting_orders = true;
  availability_reason = [];
  menu_version = some 7;
  menu_snapshot_hash = none;
  menu_updated_at = none;
  updated_at = 1;
}

abbrev dish : MenuItemRow
dish = record {
  id = codes "soup";
  venue_id = codes "venue";
  category_id = codes "hot";
  external_id = codes "s1";
  name = codes "Soup";
  description = [];
  price_amount = 250;
  currency = codes "RUB";
  is_available = true;
  is_active = true;
  position = 0;
  updated_at = 1;
}

abbrev pub command : CreateOrderCommand
command = record {
  order_id = codes "order";
  idempotency_key = codes "key";
  request_hash = codes "hash";
  tracking_token_hash = codes "token";
  confirmation_deadline = 500;
  request = record {
    customer_ref = codes "customer";
    venue_id = codes "venue";
    menu_version = 7;
    items = record { menu_item_id = codes "soup"; quantity = 2 } ∷ [];
    delivery = [];
  };
}

abbrev pub item : OrderItem
item = record {
  menu_item_id = codes "soup";
  external_item_id = codes "s1";
  name = codes "Soup";
  quantity = 2;
  unit_price = 250;
  total_price = 500;
}

abbrev pub empty_db : Db
empty_db = record {
  venues = venue ∷ [];
  menu_categories = [];
  menu_items = dish ∷ [];
  orders = [];
  order_items = [];
  order_status_history = [];
  partner_order_events = [];
  outbox = [];
}

empty_db-IsConsistent : IsConsistent empty_db
empty_db-IsConsistent = record { keyed = tt; sound = λ id. refl; jobs = λ id type. ground arith }

create_order-IsConsistent_example : IsConsistent (create_order env command empty_db).db
create_order-IsConsistent_example =
    create_order-IsConsistent env command empty_db empty_db-IsConsistent

-- The database with the order placed, and its job.
abbrev pub placed : OrderRow
placed = row_of_command env command venue 500

abbrev waiting : OutboxRow
waiting = confirm_job env command (item ∷ []) (2 ∷ [])

abbrev pub placed_db : Db
placed_db = record empty_db { orders = placed ∷ []; outbox = waiting ∷ [] }

pub placed_db-IsConsistent : IsConsistent placed_db
placed_db-IsConsistent = record {
  keyed = (refl, tt);
  sound = λ id. ground arith;
  jobs = λ id type. ground arith;
}

cancel_order-IsConsistent_example :
    IsConsistent (cancel_order env (codes "order") (codes "token") placed_db).db
cancel_order-IsConsistent_example =
    cancel_order-IsConsistent env (codes "order") (codes "token") placed_db placed_db-IsConsistent

-- The database while a worker holds the job.
abbrev leased : OutboxRow
leased = record waiting { attempts = 1; locked_until = some 130; lock_token = some (9 ∷ []) }

abbrev pub leased_db : Db
leased_db = record placed_db { outbox = leased ∷ [] }

leased_db-IsConsistent : IsConsistent leased_db
leased_db-IsConsistent = record {
  keyed = (refl, tt);
  sound = λ id. ground arith;
  jobs = λ id type. ground arith;
}

abbrev pub job : OutboxJob
job = record {
  id = 2 ∷ [];
  order_id = codes "order";
  event_type = Store.confirm_order;
  lock_token = 9 ∷ [];
  payload = waiting.payload;
  attempts = 1;
  confirmation_deadline = 500;
  expected_items_amount = 500;
  currency = codes "RUB";
}

job-IsIssued : IsIssued job leased_db
job-IsIssued = record { named = (λ e. (refl, refl), tt) }

abbrev pub acceptance : VenueOrderDecision
acceptance = record {
  verdict = accepted_order;
  external_order_id = codes "theirs";
  accepted_items_amount = 500;
  currency = codes "RUB";
  reason = [];
  current_menu_version = 0;
  unavailable_item_ids = [];
}

resolve_outbox-IsConsistent_example : IsConsistent (resolve_outbox env job acceptance leased_db).db
resolve_outbox-IsConsistent_example =
    resolve_outbox-IsConsistent env job leased_db leased_db-IsConsistent job-IsIssued acceptance
      refl

retry_outbox-IsConsistent_example : IsConsistent (retry_outbox env job 120 true leased_db).db
retry_outbox-IsConsistent_example =
    retry_outbox-IsConsistent env job leased_db leased_db-IsConsistent job-IsIssued 120 true

-- The database while a worker holds the cancellation of an accepted order.
abbrev pub cancelling_db : Db
cancelling_db = record placed_db {
  orders = record placed { status = Store.accepted; cancellation_status = Store.requested } ∷ [];
  outbox = record leased { event_type = Store.cancel_order } ∷ [];
}

cancelling_db-IsConsistent : IsConsistent cancelling_db
cancelling_db-IsConsistent = record {
  keyed = (refl, tt);
  sound = λ id. ground arith;
  jobs = λ id type. ground arith;
}

abbrev cancel_job : OutboxJob
cancel_job = record job { event_type = Store.cancel_order }

cancel_job-IsIssued : IsIssued cancel_job cancelling_db
cancel_job-IsIssued = record { named = (λ e. (refl, refl), tt) }

abbrev confirmation : VenueCancellationDecision
confirmation = record { verdict = cancelled_order; reason = [] }

resolve_cancellation-IsConsistent_example :
    IsConsistent (resolve_cancellation env cancel_job confirmation cancelling_db).db
resolve_cancellation-IsConsistent_example =
    resolve_cancellation-IsConsistent env cancel_job cancelling_db cancelling_db-IsConsistent
      cancel_job-IsIssued confirmation refl

abbrev pub event : OrderEvent
event = record {
  event_id = codes "event";
  sequence = 1;
  type = Store.order_cancelled;
  occurred_at = 90;
  reason = [];
}

record_order_event-IsConsistent_example :
    IsConsistent (record_order_event env (codes "venue") (codes "order") event cancelling_db).db
record_order_event-IsConsistent_example =
    record_order_event-IsConsistent env (codes "venue") (codes "order") event cancelling_db
      cancelling_db-IsConsistent

placed_db-AreKeyed : AreKeyed placed_db.outbox
placed_db-AreKeyed = ((λ e. refl, tt), tt)

abbrev pub claim_env : Env
claim_env = record env { uuid = λ n. some (9 ∷ []) }

pub claimed : claim_outbox claim_env 30 placed_db ≡ ok (job, leased_db)
unfolding claim_outbox next_job Text_discrete ℕ_discrete
claimed = refl

claim_outbox-IsIssued_example : IsIssued job leased_db
claim_outbox-IsIssued_example =
    claim_outbox-IsIssued claim_env 30 placed_db job leased_db placed_db-AreKeyed claimed

abbrev pub round : Round
round = record {
  claim_env = env;
  finish_env = env;
  lease = 30;
  max_attempts = 5;
  now = 100;
  retry_now = 110;
  jitter = λ base. 0;
  decide = λ j. ok acceptance;
  cancel = λ j. ok confirmation;
  others = λ db. db;
}
