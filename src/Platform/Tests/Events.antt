-- ===== src/Platform/Tests/Events.antt =====
-- A cancellation of the venue that is delivered twice, and a checkout in two orders.
use avito_kitchen.Base.{◌≡◌, refl, [], ◌∷◌, codes, Text_discrete, ℕ_discrete}
use avito_kitchen.Platform.Events.{
  event_transition, settle_cancellation, apply_event, record_order_event_tx, record_order_event,
}
use avito_kitchen.Platform.Events.Repeat.{record_order_event-repeat}
use avito_kitchen.Platform.Orders.{insert_order_history}
use avito_kitchen.Platform.Run.{transaction}
use avito_kitchen.Platform.Store.{Db}
use avito_kitchen.Platform.Tests.{env, event, cancelling_db}
use avito_kitchen.Platform.Domain.{OrderItemRequest}
use avito_kitchen.Platform.Service.Checkout.{CheckoutRequest, Coding, checkout_hash}
use avito_kitchen.Platform.Service.Checkout.Reordered.{AreUnique, swapped, checkout_hash-Reordered}
use avito_kitchen.Shared.Transaction.{ok, within_transaction}

abbrev recorded_db : Db
recorded_db = (record_order_event env (codes "venue") (codes "order") event cancelling_db).db

recorded :
    (record_order_event env (codes "venue") (codes "order") event cancelling_db).result ≡ ok tt
unfolding record_order_event record_order_event_tx event_transition apply_event settle_cancellation
    insert_order_history transaction within_transaction Text_discrete ℕ_discrete
recorded = refl

record_order_event-repeat_example :
    record_order_event env (codes "venue") (codes "order") event recorded_db
    ≡ record { result = ok tt; db = recorded_db }
record_order_event-repeat_example =
    record_order_event-repeat env env (codes "venue") (codes "order") (codes "event") event
      cancelling_db refl refl refl refl (λ f. refl) recorded

-- Two checkouts that list their dishes in either order.
abbrev soup : OrderItemRequest
soup = record { menu_item_id = codes "soup"; quantity = 2 }

abbrev tea : OrderItemRequest
tea = record { menu_item_id = codes "tea"; quantity = 1 }

abbrev request : CheckoutRequest
request = record {
  customer_ref = codes "customer";
  venue_id = codes "venue";
  menu_version = 7;
  items = soup ∷ tea ∷ [];
  delivery = record {
    address = record { city = []; street = []; house = []; apartment = [] };
    phone = [];
    comment = [];
  };
}

abbrev coding : Coding
coding = record {
  digest = λ r. elim r.items [ [] ↦ [] | ◌∷◌ i _ ↦ i.menu_item_id ];
  encode_delivery = λ d. [];
  sha256 = λ t. t;
  hmac = λ s t. t;
}

unique : AreUnique request.items
unfolding Text_discrete ℕ_discrete
unique = (refl, (refl, tt))

checkout_hash-Reordered_example :
    checkout_hash coding (record request { items = tea ∷ soup ∷ [] }) ≡ checkout_hash coding request
checkout_hash-Reordered_example =
    checkout_hash-Reordered coding request (tea ∷ soup ∷ []) unique (swapped soup tea)
