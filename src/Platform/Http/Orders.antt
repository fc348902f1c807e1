-- ===== src/Platform/Http/Orders.antt =====
-- The checkout as a request and what `domain` makes of it:
-- internal/platform/transport/http/dto.go.
use avito_kitchen.Base.{Bool, not, ◌||◌, List, [], ◌∷◌, Text, ltb, length}
use avito_kitchen.Platform.Domain.{OrderItemRequest}
use avito_kitchen.Platform.Http.Requests.{invalid_request}
use avito_kitchen.Platform.Service.Checkout.{Delivery, CheckoutRequest}
use avito_kitchen.Shared.Errors.{AppError}
use avito_kitchen.Shared.Integers.{ℤ, is_less, is_greater, to_nat}
use avito_kitchen.Shared.Strings.{trim_space, is_empty, valid_required_text, valid_optional_text}
use avito_kitchen.Shared.Transaction.{Result, ok, refuse, ◌>>=◌, ◌>>◌}
use avito_kitchen.Shared.Uuid.{is_valid}

-- `orderItemRequest` and `createOrderRequest`; the address and the delivery have the fields of the
-- domain's.
pub record ItemRequest : Type 0 where
  pub menu_item_id : Text
  pub quantity : ℤ

pub record OrderRequest : Type 0 where
  pub customer_ref : Text
  pub venue_id : Text
  pub menu_version : ℤ
  pub items : List ItemRequest
  pub delivery : Delivery

-- The loop over the items.
unfoldable pub items_of : List ItemRequest → Result AppError (List OrderItemRequest)
unfolding is_valid
items_of [] = ok []
items_of (i ∷ is) = do
  refuse (not (is_valid i.menu_item_id) || is_less i.quantity 1 || is_greater i.quantity 100)
      invalid_request
  rest ← items_of is
  ok (record { menu_item_id = i.menu_item_id; quantity = to_nat i.quantity } ∷ rest)

-- The test of the delivery.
unfoldable pub is_invalid_delivery : Delivery → Bool
unfolding valid_required_text valid_optional_text trim_space
is_invalid_delivery d =
    not (valid_required_text d.address.city 200)
    || not (valid_required_text d.address.street 200)
    || not (valid_required_text d.address.house 50)
    || not (valid_optional_text d.address.apartment 50)
    || is_empty (trim_space d.phone)
    || not (valid_optional_text d.comment 500)

-- `(createOrderRequest).domain`.
unfoldable pub checkout_of : OrderRequest → Result AppError CheckoutRequest
unfolding items_of is_invalid_delivery valid_required_text is_valid
checkout_of r = do
  refuse
      (not (valid_required_text r.customer_ref 128)
        || not (is_valid r.venue_id)
        || is_less r.menu_version 1
        || ltb (length r.items) 1
        || ltb 100 (length r.items))
      invalid_request
  items ← items_of r.items
  refuse (is_invalid_delivery r.delivery) invalid_request
  ok (record {
    customer_ref = r.customer_ref;
    venue_id = r.venue_id;
    menu_version = to_nat r.menu_version;
    items = items;
    delivery = r.delivery;
  })
