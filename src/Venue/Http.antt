-- ===== src/Venue/Http.antt =====
-- The HTTP side of the venue: internal/venue/transport/http/dto.go and handler.go.
pub mod Handlers
use avito_kitchen.Base.{
  ℕ, Bool, true, false, not, ◌||◌, ltb, Option, none, some, List, [], ◌∷◌, Text, codes, length,
  if◌then◌else◌,
}
use avito_kitchen.Venue.Store.{
  OrderItem, OrderCommand, OrderDecision, Reason, venue_closed, menu_changed, items_unavailable,
}
use avito_kitchen.Shared.Errors.{AppError, validation}
use avito_kitchen.Shared.Integers.{ℤ, is_less, is_greater, to_nat}
use avito_kitchen.Shared.Strings.{valid_required_text}
use avito_kitchen.Shared.Transaction.{Result, ok, err, refuse, ◌>>=◌, ◌>>◌}
use avito_kitchen.Shared.Uuid.{is_valid}

-- `invalidRequest`.
abbrev pub invalid_request : AppError
invalid_request = record {
  kind = validation;
  code = codes "VALIDATION_FAILED";
  detail = codes "request fields are invalid";
}

pub record OrderItemRequest : Type 0 where
  pub external_item_id : Text
  pub name : Text
  pub quantity : ℤ
  pub expected_unit_price : ℤ

pub record OrderCommandRequest : Type 0 where
  pub platform_order_id : Text
  pub menu_version : ℤ
  pub items : List OrderItemRequest

abbrev pub is_invalid_item : OrderItemRequest → Bool
is_invalid_item i =
    not (valid_required_text i.external_item_id 128)
    || not (valid_required_text i.name 200)
    || is_less i.quantity 1
    || is_greater i.quantity 100
    || is_less i.expected_unit_price 0

-- The loop over the items.
unfoldable pub items_of : List OrderItemRequest → Result AppError (List OrderItem)
unfolding valid_required_text
items_of [] = ok []
items_of (i ∷ is) = do
  refuse (is_invalid_item i) invalid_request
  rest ← items_of is
  ok (
      record {
        external_item_id = i.external_item_id;
        name = i.name;
        quantity = to_nat i.quantity;
        expected_unit_price = to_nat i.expected_unit_price;
      }
      ∷ rest)

-- `(orderCommandRequest).domain`.
unfoldable pub command_of : OrderCommandRequest → Result AppError OrderCommand
unfolding items_of is_valid
command_of r = do
  refuse
      (not (is_valid r.platform_order_id)
        || is_less r.menu_version 1
        || ltb (length r.items) 1
        || ltb 100 (length r.items))
      invalid_request
  items ← items_of r.items
  ok (record {
    platform_order_id = r.platform_order_id;
    menu_version = to_nat r.menu_version;
    items = items;
  })

-- The texts of the reasons.
abbrev pub reason_text : Reason → Text
reason_text venue_closed = codes "venue_closed"
reason_text menu_changed = codes "menu_changed"
reason_text items_unavailable = codes "items_unavailable"

-- `orderDecisionResponse`; `none` is a field that is left out.
pub record DecisionResponse : Type 0 where
  pub result : Text
  pub external_order_id : Text
  pub accepted_items_amount : Option ℕ
  pub currency : Text
  pub reason : Text
  pub current_menu_version : Option ℕ
  pub unavailable_item_ids : List Text

-- `decisionDTO`; a decision without a reason is an acceptance.
unfoldable pub decision_dto : OrderDecision → DecisionResponse
decision_dto d = elim d.reason [
  | none ↦ record {
    result = codes "accepted";
    external_order_id = d.external_order_id;
    accepted_items_amount = some d.accepted_items_amount;
    currency = d.currency;
    reason = [];
    current_menu_version = none;
    unavailable_item_ids = d.unavailable_item_ids;
  }
  | some reason ↦ record {
    result = codes "rejected";
    external_order_id = d.external_order_id;
    accepted_items_amount = none;
    currency = d.currency;
    reason = reason_text reason;
    current_menu_version =
        if ltb 0 d.current_menu_version then some d.current_menu_version else none;
    unavailable_item_ids = d.unavailable_item_ids;
  }
]
