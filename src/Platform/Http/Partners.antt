-- ===== src/Platform/Http/Partners.antt =====
-- The handlers of the partner's calls: internal/platform/transport/http/handler.go.
use avito_kitchen.Base.{ℕ, Option, Text, codes}
use avito_kitchen.Platform.Store.{Db, Env}
use avito_kitchen.Platform.Http.Requests.{
  ReplaceMenuRequest, AvailabilityRequest, OrderEventRequest, snapshot_of, availability_of,
  event_of,
}
use avito_kitchen.Platform.Service.Partners.{
  HashSnapshot, publish_menu, change_availability, accept_event,
}
use avito_kitchen.Shared.Errors.{AppError}
use avito_kitchen.Shared.Http.{
  Response, Problem, Body, Response, write_problem, decode_json, authenticate,
}
use avito_kitchen.Shared.Http
use avito_kitchen.Shared.Transaction.{ok, err, Outcome, ◌>>◌}
use avito_kitchen.Platform.Http.Handlers.{Request, Served, refused, check_path, read_body}

-- `authenticatePartner` around a handler; the principal is the configured venue.
unfoldable pub as_partner :
    {A : Type 0} → Text → Text → Text → Text → (Text → Db → Served A) → Db → Served A
unfolding authenticate write_problem
as_partner partner_token partner_venue_id request_id header handler db =
    elim (authenticate partner_token (codes "valid partner token is required") header) [
      | err e ↦ refused request_id e db
      | ok _ ↦ handler partner_venue_id db
    ]

-- `w.WriteHeader(http.StatusNoContent)`, or the problem.
unfoldable pub no_content : Text → Outcome AppError (Unit {0}) Db → Served (Unit {0})
unfolding write_problem
no_content request_id o = record {
  response = elim o.result [ err e ↦ write_problem request_id e | ok _ ↦ Http.empty 204 ];
  db = o.db;
}

-- `replaceMenu`, `updateAvailability` and `recordOrderEvent` under a principal.
unfoldable pub replace_menu :
    (HashSnapshot → Text)
    → Env
    → (ℕ → ℕ → Option Text)
    → ℕ
    → Request ReplaceMenuRequest
    → Text
    → Db
    → Served (Unit {0})
unfolding read_body snapshot_of publish_menu no_content write_problem
replace_menu digest env item_ids max_bytes request venue_id db =
    elim (read_body request max_bytes snapshot_of) [
      | err e ↦ refused request.request_id e db
      | ok snapshot ↦
          no_content request.request_id (publish_menu digest env item_ids venue_id snapshot db)
    ]

unfoldable pub update_availability :
    Env → ℕ → Request AvailabilityRequest → Text → Db → Served (Unit {0})
unfolding read_body availability_of change_availability no_content write_problem
update_availability env max_bytes request venue_id db =
    elim (read_body request max_bytes availability_of) [
      | err e ↦ refused request.request_id e db
      | ok update ↦ no_content request.request_id (change_availability env venue_id update db)
    ]

unfoldable pub record_order_event :
    Env → ℕ → Text → Request OrderEventRequest → Text → Db → Served (Unit {0})
unfolding check_path read_body event_of accept_event no_content write_problem
record_order_event env max_bytes order_id request venue_id db =
    elim (do check_path order_id; read_body request max_bytes event_of) [
      | err e ↦ refused request.request_id e db
      | ok event ↦ no_content request.request_id (accept_event env venue_id order_id event db)
    ]
