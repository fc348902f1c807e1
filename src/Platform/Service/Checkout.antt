-- ===== src/Platform/Service/Checkout.antt =====
-- `CreateOrder`, `GetOrder` and `CancelOrder` of internal/platform/service/orders.go.
pub mod Reordered
use avito_kitchen.Base.{
  ℕ, ◌+◌, Bool, true, false, not, ◌&&◌, ◌||◌, ◌==◌, ltb, leb, Option, none, some, List, [], ◌∷◌,
  Text, codes, length, if◌then◌else◌,
}
use avito_kitchen.Platform.Store.{Db, Env, RepoError}
use avito_kitchen.Platform.Domain.{Order, OrderItemRequest, CreateOrderCommand}
use avito_kitchen.Platform.Orders.{get_order, cancel_order}
use avito_kitchen.Platform.Checkout.Create.{create_order}
use avito_kitchen.Platform.Service.{
  invalid_request, internal_server_error, map_repository_error, validate_items,
}
use avito_kitchen.Platform.Tokens.{Token, derive}
use avito_kitchen.Shared.Errors.{AppError}
use avito_kitchen.Shared.Strings.{trim_space, rune_count, valid_required_text, valid_optional_text}
use avito_kitchen.Shared.Transaction.{Result, ok, err, refuse, Outcome, ◌>>=◌, ◌>>◌}
use avito_kitchen.Shared.Uuid.{is_valid}

pub record Address : Type 0 where
  pub city : Text
  pub street : Text
  pub house : Text
  pub apartment : Text

pub record Delivery : Type 0 where
  pub address : Address
  pub phone : Text
  pub comment : Text

-- `domain.CreateOrderRequest`, its delivery not yet a JSON text.
pub record CheckoutRequest : Type 0 where
  pub customer_ref : Text
  pub venue_id : Text
  pub menu_version : ℕ
  pub items : List OrderItemRequest
  pub delivery : Delivery

-- `domain.CreateOrderResult`.
pub record Placed : Type 0 where
  pub order : Order
  pub tracking_token : Text

abbrev is_digit : ℕ → Bool
is_digit c = leb 48 c && leb c 57

unfoldable pub all_digits : Text → Bool
all_digits [] = true
all_digits (c ∷ t) = is_digit c && all_digits t

-- `phonePattern`: `^\+[1-9][0-9]{7,14}$`.
unfoldable pub is_phone : Text → Bool
unfolding all_digits
is_phone [] = false
is_phone (p ∷ []) = false
is_phone (p ∷ c ∷ t) =
    p == 43 && leb 49 c && leb c 57 && leb 7 (length t) && leb (length t) 14 && all_digits t

-- The five assignments at the start of `CreateOrder`.
unfoldable pub trimmed : CheckoutRequest → CheckoutRequest
unfolding trim_space
trimmed r = record r {
  customer_ref = trim_space r.customer_ref;
  delivery = record r.delivery {
    address = record r.delivery.address {
      city = trim_space r.delivery.address.city;
      street = trim_space r.delivery.address.street;
      house = trim_space r.delivery.address.house;
    };
    phone = trim_space r.delivery.phone;
  };
}

-- `keyLength < 16 || keyLength > 128`.
unfoldable pub is_invalid_key : Text → Bool
unfolding rune_count
is_invalid_key key = ltb (rune_count key) 16 || ltb 128 (rune_count key)

-- The first test of `validateCheckout`.
unfoldable pub has_invalid_fields : Text → CheckoutRequest → Bool
unfolding is_invalid_key is_phone valid_required_text valid_optional_text is_valid
has_invalid_fields key r =
    is_invalid_key key
    || not (valid_required_text r.customer_ref 128)
    || not (is_valid r.venue_id)
    || ltb r.menu_version 1
    || ltb (length r.items) 1
    || ltb 100 (length r.items)
    || not (valid_required_text r.delivery.address.city 200)
    || not (valid_required_text r.delivery.address.street 200)
    || not (valid_required_text r.delivery.address.house 50)
    || not (valid_optional_text r.delivery.address.apartment 50)
    || not (is_phone r.delivery.phone)
    || not (valid_optional_text r.delivery.comment 500)

-- `validateCheckout`.
unfoldable pub validate_checkout : Text → CheckoutRequest → Result AppError (Unit {0})
unfolding has_invalid_fields validate_items is_valid
validate_checkout key r = do
  refuse (has_invalid_fields key r) (invalid_request (codes "checkout fields are invalid"))
  validate_items is_valid [] r.items

-- `a < b` on strings.
unfoldable pub is_before : Text → Text → Bool
is_before [] [] = false
is_before [] (y ∷ ys) = true
is_before (x ∷ xs) [] = false
is_before (x ∷ xs) (y ∷ ys) = let rest = is_before xs ys in if ltb x y then true else x == y && rest

-- The insertion of a sort by identifier: `sort.Slice` on items whose identifiers are different.
unfoldable pub insert_item : OrderItemRequest → List OrderItemRequest → List OrderItemRequest
unfolding is_before
insert_item x [] = x ∷ []
insert_item x (y ∷ ys) =
    let rest = insert_item x ys in
    if is_before y.menu_item_id x.menu_item_id then y ∷ rest else x ∷ y ∷ ys

unfoldable pub sorted : List OrderItemRequest → List OrderItemRequest
unfolding insert_item
sorted [] = []
sorted (x ∷ xs) = insert_item x (sorted xs)

-- What the standard library gives: the digest of a request's JSON text in hexadecimal digits, the
-- JSON text of a delivery, and the two hash functions.
pub record Coding : Type 0 where
  pub digest : CheckoutRequest → Text
  pub encode_delivery : Delivery → Text
  pub sha256 : Text → Text
  pub hmac : Text → Text → Text

-- `checkoutHash`.
unfoldable pub checkout_hash : Coding → CheckoutRequest → Text
unfolding sorted
checkout_hash coding r = coding.digest (record r { items = sorted r.items })

-- `OrdersService`; a timeout that is not positive is 0.
pub record OrdersService : Type 0 where
  pub token_secret : Text
  pub confirmation_timeout : ℕ

abbrev pub command_of :
    Coding → Env → OrdersService → Text → Text → Token → CheckoutRequest → CreateOrderCommand
command_of coding env service key order_id token r = record {
  order_id = order_id;
  idempotency_key = key;
  request_hash = checkout_hash coding r;
  tracking_token_hash = token.hash;
  confirmation_deadline = env.now + service.confirmation_timeout;
  request = record {
    customer_ref = r.customer_ref;
    venue_id = r.venue_id;
    menu_version = r.menu_version;
    items = r.items;
    delivery = coding.encode_delivery r.delivery;
  };
}

-- What `CreateOrder` does before it calls the repository. `new_id` is what `shareduuid.New` gives.
unfoldable pub prepare :
    Coding
    → Env
    → OrdersService
    → Option Text
    → Text
    → CheckoutRequest
    → Result AppError (Token × CreateOrderCommand)
unfolding trimmed validate_checkout checkout_hash derive
prepare coding env service new_id key request = do
  let r = trimmed request
  validate_checkout key r
  order_id ← elim new_id [ none ↦ err internal_server_error | some id ↦ ok id ]
  token ← elim (derive coding.sha256 coding.hmac service.token_secret r.customer_ref key) [
    | err e ↦ err internal_server_error
    | ok token ↦ ok token
  ]
  refuse (service.confirmation_timeout == 0) internal_server_error
  ok (token, command_of coding env service key order_id token r)

-- `mapRepositoryError` on the outcome of a call.
abbrev pub answer : {A B : Type 0} → (A → B) → Outcome RepoError A Db → Outcome AppError B Db
answer f o = record {
  result = elim o.result [ err e ↦ err (map_repository_error e) | ok a ↦ ok (f a) ];
  db = o.db;
}

-- `(*OrdersService).CreateOrder`.
unfoldable pub place_order :
    Coding
    → Env
    → OrdersService
    → Option Text
    → Text
    → CheckoutRequest
    → Db
    → Outcome AppError Placed Db
unfolding prepare create_order map_repository_error
place_order coding env service new_id key request db =
    elim (prepare coding env service new_id key request) [
      | err e ↦ record { result = err e; db = db }
      | ok (token, command) ↦
          answer (λ order. record { order = order; tracking_token = token.raw })
            (create_order env command db)
    ]

-- `(*OrdersService).GetOrder` and `CancelOrder`.
unfoldable pub read_order : Env → Db → Text → Text → Result AppError Order
unfolding get_order map_repository_error
read_order env db order_id token_hash = elim (get_order env db order_id token_hash) [
  | err e ↦ err (map_repository_error e)
  | ok order ↦ ok order
]

unfoldable pub withdraw_order : Env → Text → Text → Db → Outcome AppError Order Db
unfolding cancel_order map_repository_error
withdraw_order env order_id token_hash db =
    answer (λ o. o) (cancel_order env order_id token_hash db)
