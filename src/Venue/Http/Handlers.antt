-- ===== src/Venue/Http/Handlers.antt =====
-- The handlers of the venue: internal/venue/transport/http/handler.go.
use avito_kitchen.Base.{ℕ, Bool, not, List, Text, codes}
use avito_kitchen.Venue.Store.{CancellationDecision, ManagedOrder, Db, Env}
use avito_kitchen.Venue.Http.{OrderCommandRequest, DecisionResponse, command_of, decision_dto}
use avito_kitchen.Venue.Service.Orders.{
  is_invalid_key, decide, all_orders, one_order, cancel, Transition, transition,
}
use avito_kitchen.Shared.Errors.{AppError, bad_request}
use avito_kitchen.Shared.Http.{Response, Body, write_problem, decode_json, authenticate}
use avito_kitchen.Shared.Http
use avito_kitchen.Shared.Transaction.{Result, ok, err, refuse, Outcome, ◌>>=◌, ◌>>◌}
use avito_kitchen.Shared.Uuid.{is_valid}

-- `malformedRequest`.
abbrev pub malformed_request : AppError
malformed_request = record {
  kind = bad_request;
  code = codes "INVALID_REQUEST";
  detail = codes "request path or headers are invalid";
}

pub record Request : Type 0 where
  pub is_json : Bool
  pub body : ℕ → Body OrderCommandRequest
  pub request_id : Text

-- The end of a handler that reads.
unfoldable pub write_result : {A B : Type 0} → Text → (A → B) → Result AppError A → Response B
unfolding write_problem
write_result request_id dto (err e) = write_problem request_id e
write_result request_id dto (ok a) = Http.json 200 (dto a)

-- `validPath`.
unfoldable pub valid_path : Text → Result AppError (Unit {0})
unfolding is_valid
valid_path order_id = refuse (not (is_valid order_id)) malformed_request

-- A response and the database after it.
pub record Served (A : Type 0) : Type 0 where
  pub response : Response A
  pub db : Db

abbrev pub refused : {A : Type 0} → Text → AppError → Db → Served A
refused request_id e db = record { response = write_problem request_id e; db = db }

abbrev pub served : {A B : Type 0} → Text → (A → B) → Outcome AppError A Db → Served B
served request_id dto o = record { response = write_result request_id dto o.result; db = o.db }

-- `decideOrder` without the fault that tests inject.
unfoldable pub decide_order : Env → ℕ → Text → Request → Db → Served DecisionResponse
unfolding is_invalid_key decode_json command_of decide decision_dto write_result write_problem
decide_order env max_bytes key request db =
    elim (do
      refuse (is_invalid_key key) malformed_request
      body ← decode_json request.is_json request.body max_bytes
      command_of body) [
        | err e ↦ refused request.request_id e db
        | ok command ↦ served request.request_id decision_dto (decide env key command db)
      ]

-- `cancelOrder`.
unfoldable pub cancel_order : Env → Text → Text → Db → Served CancellationDecision
unfolding valid_path cancel write_result write_problem
cancel_order env request_id order_id db = elim (valid_path order_id) [
  | err e ↦ refused request_id e db
  | ok _ ↦ served request_id (λ d. d) (cancel env order_id db)
]

-- `listOrders` and `getOrder`; their answers have the fields of the domain's values.
unfoldable pub list_orders : Env → Text → Db → Response (List ManagedOrder)
unfolding all_orders write_result
list_orders env request_id db = write_result request_id (λ os. os) (all_orders env db)

unfoldable pub get_order : Env → Text → Text → Db → Response ManagedOrder
unfolding valid_path one_order write_result
get_order env request_id order_id db =
    write_result request_id (λ o. o) (do valid_path order_id; one_order env db order_id)

-- `startPreparing`, `markReady` and `complete`.
unfoldable pub change_order : Transition → Env → Text → Text → Db → Served ManagedOrder
unfolding valid_path transition write_result write_problem
change_order t env request_id order_id db = elim (valid_path order_id) [
  | err e ↦ refused request_id e db
  | ok _ ↦ served request_id (λ o. o) (transition t env order_id db)
]

-- `authenticate` around a handler.
unfoldable pub authenticated :
    {A : Type 0} → Text → Text → Text → Text → (Db → Served A) → Db → Served A
unfolding authenticate write_problem
authenticated expected detail request_id header handler db =
    elim (authenticate expected detail header) [
      | err e ↦ refused request_id e db
      | ok _ ↦ handler db
    ]
