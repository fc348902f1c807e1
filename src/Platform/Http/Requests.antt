-- ===== src/Platform/Http/Requests.antt =====
-- The requests of partners and what `domain` makes of them:
-- internal/platform/transport/http/dto.go.
use avito_kitchen.Base.{
  ℕ, Bool, not, ◌||◌, List, [], ◌∷◌, Text, codes, same, length, ltb, Option, none, some,
  if◌then◌else◌,
}
use avito_kitchen.Platform.Store.{
  EventType, order_preparing, order_ready, order_completed, order_cancelled,
}
use avito_kitchen.Platform.Domain.{OrderEvent}
use avito_kitchen.Platform.Partner.{MenuItem, MenuCategory, MenuSnapshot, AvailabilityUpdate}
use avito_kitchen.Shared.Errors.{AppError, validation}
use avito_kitchen.Shared.Integers.{ℤ, is_less, to_nat}
use avito_kitchen.Shared.Strings.{valid_required_text, valid_optional_text, valid_currency}
use avito_kitchen.Shared.Transaction.{Result, ok, err, refuse, ◌>>=◌, ◌>>◌}
use avito_kitchen.Shared.Uuid.{is_valid}

-- `invalidRequest`.
abbrev pub invalid_request : AppError
invalid_request = record {
  kind = validation;
  code = codes "VALIDATION_FAILED";
  detail = codes "request fields are invalid";
}

pub record MoneyRequest : Type 0 where
  pub amount : ℤ
  pub currency : Text

pub record PartnerMenuItem : Type 0 where
  pub external_id : Text
  pub name : Text
  pub description : Text
  pub price : MoneyRequest
  pub is_available : Bool

pub record PartnerMenuCategory : Type 0 where
  pub external_id : Text
  pub name : Text
  pub items : List PartnerMenuItem

pub record ReplaceMenuRequest : Type 0 where
  pub version : ℤ
  pub categories : List PartnerMenuCategory

abbrev pub is_invalid_item : PartnerMenuItem → Bool
is_invalid_item i =
    not (valid_required_text i.external_id 128)
    || not (valid_required_text i.name 200)
    || not (valid_optional_text i.description 2000)
    || is_less i.price.amount 0
    || not (valid_currency i.price.currency)

-- The loop over the items of a category.
unfoldable pub items_of : List PartnerMenuItem → Result AppError (List MenuItem)
unfolding valid_required_text valid_optional_text valid_currency
items_of [] = ok []
items_of (i ∷ is) = do
  refuse (is_invalid_item i) invalid_request
  rest ← items_of is
  ok (
      record {
        external_id = i.external_id;
        name = i.name;
        description = i.description;
        price_amount = to_nat i.price.amount;
        currency = i.price.currency;
        is_available = i.is_available;
      }
      ∷ rest)

abbrev pub is_invalid_category : PartnerMenuCategory → Bool
is_invalid_category c =
    not (valid_required_text c.external_id 128)
    || not (valid_required_text c.name 200)
    || ltb 1000 (length c.items)

-- The loop over the categories.
unfoldable pub categories_of : List PartnerMenuCategory → Result AppError (List MenuCategory)
unfolding items_of valid_required_text
categories_of [] = ok []
categories_of (c ∷ cs) = do
  refuse (is_invalid_category c) invalid_request
  items ← items_of c.items
  rest ← categories_of cs
  ok (record { external_id = c.external_id; name = c.name; items = items } ∷ rest)

-- `(replaceMenuRequest).domain`.
unfoldable pub snapshot_of : ReplaceMenuRequest → Result AppError MenuSnapshot
unfolding categories_of
snapshot_of request = do
  refuse
      (is_less request.version 1
        || ltb (length request.categories) 1
        || ltb 100 (length request.categories))
      invalid_request
  categories ← categories_of request.categories
  ok (record { version = to_nat request.version; categories = categories })

pub record AvailabilityRequest : Type 0 where
  pub is_accepting_orders : Bool
  pub reason : Text

-- `(availabilityUpdateRequest).domain`.
unfoldable pub availability_of : AvailabilityRequest → Result AppError AvailabilityUpdate
unfolding valid_optional_text
availability_of request = do
  refuse (not (valid_optional_text request.reason 200)) invalid_request
  ok (record { is_accepting_orders = request.is_accepting_orders; reason = request.reason })

-- `occurred_at` is `none` for the zero time.
pub record OrderEventRequest : Type 0 where
  pub event_id : Text
  pub sequence : ℤ
  pub type : Text
  pub occurred_at : Option ℕ
  pub reason : Text

-- The texts of the four types.
unfoldable pub type_of : Text → Option EventType
type_of t =
    if same t (codes "order_preparing")
    then some order_preparing
    else if same t (codes "order_ready")
    then some order_ready
    else if same t (codes "order_completed")
    then some order_completed
    else if same t (codes "order_cancelled")
    then some order_cancelled
    else none

-- `(orderEventRequest).domain`.
unfoldable pub event_of : OrderEventRequest → Result AppError OrderEvent
unfolding type_of valid_optional_text is_valid
event_of request = do
  refuse (not (is_valid request.event_id) || is_less request.sequence 1) invalid_request
  type ← elim (type_of request.type) [ none ↦ err invalid_request | some t ↦ ok t ]
  occurred_at ← elim request.occurred_at [ none ↦ err invalid_request | some t ↦ ok t ]
  refuse (not (valid_optional_text request.reason 500)) invalid_request
  ok (record {
    event_id = request.event_id;
    sequence = to_nat request.sequence;
    type = type;
    occurred_at = occurred_at;
    reason = request.reason;
  })
