-- ===== src/Platform/Tests/Answers.antt =====
-- More of the platform's theorems at concrete inputs: repeats, prices, answers and pauses.
use avito_kitchen.Base.{
  ℕ, ◌⊎◌, ◌==◌, ◌||◌, leb, ◌*◌, ◌≡◌, ◌≤◌, ◌/◌, refl, true, some, List, [], ◌∷◌, Text, codes, arith,
  Text_discrete, ℕ_discrete, map_get, map_set,
}
use avito_kitchen.Platform.Service.{map_repository_error, validate_items}
use avito_kitchen.Platform.Service.Answers.{IsUnexpected, map_repository_error-IsUnexpected}
use avito_kitchen.Platform.Service.Items.{AreSound, validate_items-AreSound}
use avito_kitchen.Shared.Errors.{internal_error}
use avito_kitchen.Platform.Store.{OrderRow, OutboxRow, VenueRow, MenuItemRow, Db, Env, RepoError}
use avito_kitchen.Platform.Store
use avito_kitchen.Platform.Domain.{Order, OrderItem, OrderItemRequest, CreateOrderCommand}
use avito_kitchen.Platform.Orders.{insert_order_history}
use avito_kitchen.Platform.Checkout.{
  price_items, max_int64, find_idempotent_order, lock_checkout_venue, cast_ids, quantities,
  scan_items, insert_items,
}
use avito_kitchen.Platform.Checkout.Create.{
  create_order, create_order_tx, price_request, insert_checkout,
}
use avito_kitchen.Platform.Checkout.Totals.{items_total, AreOrdered, price_items-fits}
use avito_kitchen.Platform.Worker.{retry_backoff, second}
use avito_kitchen.Platform.Worker.Backoff.{retry_backoff_bounds}
use avito_kitchen.Platform.Client.{
  ClientError, DecisionBody, Exchange, body, status, no_answer, read_decision,
}
use avito_kitchen.Platform.Client.Trust.{read_decision-accepted, read_decision-retryable}
use avito_kitchen.Shared.Transaction.{ok, err, within_transaction}
use avito_kitchen.Platform.Run.{transaction}
use avito_kitchen.Platform.Tests.{env, command, item, empty_db, job, acceptance}

abbrev pub order : Order
order = record {
  id = codes "order";
  customer_ref = codes "customer";
  venue_id = codes "venue";
  external_order_id = [];
  status = Store.pending_confirmation;
  cancellation_status = Store.no_cancellation;
  rejection_reason = [];
  items = item ∷ [];
  items_amount = 500;
  delivery_amount = 0;
  total_amount = 500;
  currency = codes "RUB";
  created_at = 100;
  updated_at = 100;
}

pub ordered : (create_order env command empty_db).result ≡ ok order
unfolding create_order create_order_tx price_request insert_checkout find_idempotent_order
    lock_checkout_venue cast_ids quantities scan_items price_items insert_items insert_order_history
    transaction within_transaction Text_discrete ℕ_discrete map_get map_set
ordered = refl

-- The same checkout again, under a new identifier.
abbrev pub again : CreateOrderCommand
again = record command { order_id = codes "other" }

abbrev menu : List (Text × OrderItem)
menu = (codes "soup", record item { quantity = 0; total_price = 0 }) ∷ []

abbrev requested : List OrderItemRequest
requested = record { menu_item_id = codes "soup"; quantity = 2 } ∷ []

priced_two : price_items menu (quantities [] requested) 0 requested ≡ ok (item ∷ [], 500)
unfolding price_items quantities Text_discrete ℕ_discrete map_get map_set
priced_two = refl

soup_offered : map_get (codes "soup") menu ≡ some (record item { quantity = 0; total_price = 0 })
unfolding Text_discrete ℕ_discrete map_get
soup_offered = refl

price_items-fits_example :
    (500 ≡ items_total (item ∷ [])) × (500 ≤ max_int64) × AreOrdered menu requested (item ∷ [])
price_items-fits_example =
    price_items-fits menu requested (item ∷ []) 500 (refl, tt) ((_, (soup_offered, refl)), tt)
      priced_two

abbrev answer : DecisionBody
answer = record {
  result = codes "accepted";
  external_order_id = codes "theirs";
  accepted_items_amount = some 500;
  currency = codes "RUB";
  reason = [];
  current_menu_version = 0;
  unavailable_item_ids = [];
}

let_through : read_decision (λ t. true) job (body answer) ≡ ok acceptance
unfolding read_decision Text_discrete ℕ_discrete
let_through = refl

read_decision-accepted_example :
    (acceptance.accepted_items_amount ≡ job.expected_items_amount)
    × (acceptance.currency ≡ job.currency)
    × (true ≡ true)
read_decision-accepted_example =
    read_decision-accepted (λ t. true) job (body answer) acceptance let_through refl

abbrev unavailable : ClientError
unavailable = record { status_code = 503; retryable = true }

abbrev overloaded : Exchange DecisionBody
overloaded = status 503

failed_call : read_decision (λ t. true) job overloaded ≡ err unavailable
unfolding read_decision
failed_call = refl

read_decision-retryable_example :
    (overloaded ≡ no_answer)
    ⊎ ((code : ℕ) × (overloaded ≡ status code) × ((code == 429 || leb 500 code) ≡ true))
read_decision-retryable_example =
    read_decision-retryable (λ t. true) job overloaded unavailable failed_call refl

retry_backoff_bounds_example :
    (second ≤ retry_backoff 3 (λ base. base / 4))
    × (retry_backoff 3 (λ base. base / 4) ≤ 40 * second)
retry_backoff_bounds_example = retry_backoff_bounds 3 (λ base. base / 4) (λ base. omega arith)

lost_lease_answer : (map_repository_error Store.outbox_lease_lost).kind ≡ internal_error
unfolding map_repository_error
lost_lease_answer = refl

map_repository_error-IsUnexpected_example : IsUnexpected Store.outbox_lease_lost
map_repository_error-IsUnexpected_example =
    map_repository_error-IsUnexpected Store.outbox_lease_lost lost_lease_answer

sound_items : validate_items (λ t. true) [] requested ≡ ok tt
unfolding validate_items Text_discrete ℕ_discrete
sound_items = refl

validate_items-AreSound_example : AreSound (λ t. true) [] requested
validate_items-AreSound_example = validate_items-AreSound (λ t. true) [] requested sound_items
