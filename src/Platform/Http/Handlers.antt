-- ===== src/Platform/Http/Handlers.antt =====
-- The handlers of the platform: internal/platform/transport/http/handler.go. Each takes what it
-- reads of the request and gives its response, with the database where it can change.
use avito_kitchen.Base.{ℕ, Bool, not, ltb, Option, none, some, List, Text, codes, if◌then◌else◌}
use avito_kitchen.Platform.Store.{VenueRow, Db, Env}
use avito_kitchen.Platform.Http.Limiter.{Limiter, allow}
use avito_kitchen.Platform.Http.Orders.{OrderRequest, checkout_of}
use avito_kitchen.Platform.Http.Responses.{
  VenueResponse, MenuResponse, venue_dto, menu_dto, VenuePageResponse, OrderResponse,
  PlacedResponse, venue_page_dto, order_dto, placed_dto,
}
use avito_kitchen.Platform.Service.Checkout.{
  Coding, OrdersService, is_invalid_key, place_order, read_order, withdraw_order,
}
use avito_kitchen.Platform.Service.Venues.{venue_page, venue_by_id, menu_by_id}
use avito_kitchen.Platform.Tokens.{hash_token}
use avito_kitchen.Shared.Errors.{AppError, bad_request, not_found, too_many_requests}
use avito_kitchen.Shared.Http.{
  Response, Problem, Body, Response, write_problem, decode_json, authenticate,
}
use avito_kitchen.Shared.Http
use avito_kitchen.Shared.Integers.{ℤ}
use avito_kitchen.Shared.Strings.{trim_space}
use avito_kitchen.Shared.Transaction.{Result, ok, err, refuse, Outcome, ◌>>=◌, ◌>>◌}
use avito_kitchen.Shared.Uuid.{is_valid}

-- `malformedRequest`.
abbrev pub malformed_request : AppError
malformed_request = record {
  kind = bad_request;
  code = codes "INVALID_REQUEST";
  detail = codes "request path or headers are invalid";
}

-- How the headers and the body of a request are read: whether it is of JSON, the body for a limit,
-- and the request's identifier.
pub record Request (A : Type 0) : Type 0 where
  pub is_json : Bool
  pub body : ℕ → Body A
  pub request_id : Text

-- `DecodeJSON` and then `domain`.
unfoldable pub read_body :
    {A B : Type 0} → Request A → ℕ → (A → Result AppError B) → Result AppError B
unfolding decode_json
read_body r max_bytes domain = do a ← decode_json r.is_json r.body max_bytes; domain a

-- The end of a handler that reads.
unfoldable pub write_result : {A B : Type 0} → Text → ℕ → (A → B) → Result AppError A → Response B
unfolding write_problem
write_result request_id status dto (err e) = write_problem request_id e
write_result request_id status dto (ok a) = Http.json status (dto a)

-- `listVenues`. `limit` is the parameter of the query as `strconv.Atoi` reads it, if it is there.
unfoldable pub list_venues :
    Env
    → (Text → Text → Bool)
    → (Text → VenueRow → Bool)
    → List VenueRow
    → Text
    → Text
    → Text
    → Option (Option ℤ)
    → Response VenuePageResponse
unfolding venue_page venue_page_dto write_result
list_venues env above matches rows request_id search cursor limit =
    write_result request_id 200 venue_page_dto (do
      n ← elim limit [
        | none ↦ ok (ℤ.pos 20)
        | some none ↦ err malformed_request
        | some (some n) ↦ ok n
      ]
      venue_page env above matches rows search cursor n)

-- The test of an identifier in the path.
unfoldable pub check_path : Text → Result AppError (Unit {0})
unfolding is_valid
check_path id = refuse (not (is_valid id)) malformed_request

-- `getVenue` and `getMenu`.
unfoldable pub get_venue : Env → Db → Text → Text → Response VenueResponse
unfolding venue_dto venue_by_id write_result check_path
get_venue env db request_id venue_id =
    write_result request_id 200 venue_dto (do check_path venue_id; venue_by_id env db venue_id)

unfoldable pub get_menu : Env → Db → Text → Text → Response MenuResponse
unfolding menu_dto menu_by_id write_result check_path
get_menu env db request_id venue_id =
    write_result request_id 200 menu_dto (do check_path venue_id; menu_by_id env db venue_id)

-- `orderAccess`: the hash of the token in the header.
unfoldable pub order_access : (Text → Text) → Text → Text → Result AppError Text
unfolding is_valid trim_space hash_token check_path
order_access sha256 order_id header = do
  check_path order_id
  elim (hash_token sha256 (trim_space header)) [
    | err e ↦ err (record {
      kind = not_found;
      code = codes "ORDER_NOT_FOUND";
      detail = codes "order was not found";
    })
    | ok hash ↦ ok hash
  ]

-- `getOrder`.
unfoldable pub get_order : (Text → Text) → Env → Db → Text → Text → Text → Response OrderResponse
unfolding order_access read_order order_dto write_result
get_order sha256 env db request_id order_id header =
    write_result request_id 200 order_dto
      (do hash ← order_access sha256 order_id header; read_order env db order_id hash)

-- A response and the database after it.
pub record Served (A : Type 0) : Type 0 where
  pub response : Response A
  pub db : Db

abbrev pub refused : {A : Type 0} → Text → AppError → Db → Served A
refused request_id e db = record { response = write_problem request_id e; db = db }

abbrev pub served : {A B : Type 0} → Text → ℕ → (A → B) → Outcome AppError A Db → Served B
served request_id status dto o = record {
  response = write_result request_id status dto o.result;
  db = o.db;
}

-- `cancelOrder`.
unfoldable pub cancel_order : (Text → Text) → Env → Text → Text → Text → Db → Served OrderResponse
unfolding order_access withdraw_order order_dto write_result write_problem
cancel_order sha256 env request_id order_id header db = elim (order_access sha256 order_id header) [
  | err e ↦ refused request_id e db
  | ok hash ↦ served request_id 202 order_dto (withdraw_order env order_id hash db)
]

abbrev too_many : Text → AppError
too_many detail = record {
  kind = too_many_requests;
  code = codes "TOO_MANY_REQUESTS";
  detail = detail;
}

-- `createOrder` after the limiter and the slot.
unfoldable pub checkout :
    Coding
    → Env
    → OrdersService
    → ℕ
    → Option Text
    → Text
    → Request OrderRequest
    → Db
    → Served PlacedResponse
unfolding is_invalid_key read_body checkout_of place_order placed_dto write_result write_problem
checkout coding env service max_bytes new_id key request db =
    elim (do
      refuse (is_invalid_key key) malformed_request
      read_body request max_bytes checkout_of) [
        | err e ↦ refused request.request_id e db
        | ok command ↦
            served request.request_id 202 placed_dto
              (place_order coding env service new_id key command db)
      ]

-- `createOrder`. `slots` of the `capacity` are taken by other requests.
unfoldable pub create_order :
    Coding
    → Env
    → OrdersService
    → ℕ
    → Option Text
    → ℕ
    → ℕ
    → ℕ
    → Text
    → Request OrderRequest
    → Limiter
    → Db
    → Served PlacedResponse × Limiter
unfolding checkout allow write_problem
create_order coding env service max_bytes new_id now slots capacity key request limiter db =
    let rated = allow limiter now in
    if rated.0
    then (
      (if ltb slots capacity
          then checkout coding env service max_bytes new_id key request db
          else refused request.request_id (too_many (codes "checkout concurrency limit exceeded"))
              db),
      rated.1,
    )
    else (refused request.request_id (too_many (codes "checkout rate limit exceeded")) db, rated.1)
