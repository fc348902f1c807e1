-- ===== src/Venue/Service.antt =====
-- What the services of the venue answer to the errors of the repository:
-- internal/venue/service/service.go.
pub mod Orders
use avito_kitchen.Base.{codes}
use avito_kitchen.Venue.Store.{RepoError}
use avito_kitchen.Venue.Store
use avito_kitchen.Shared.Errors.{AppError, not_found, conflict, internal_error}

-- `mapError`.
unfoldable pub map_error : RepoError → AppError
map_error Store.order_not_found = record {
  kind = not_found;
  code = codes "ORDER_NOT_FOUND";
  detail = codes "order was not found";
}
map_error Store.invalid_order_transition = record {
  kind = conflict;
  code = codes "INVALID_ORDER_TRANSITION";
  detail = codes "order cannot make the requested transition";
}
map_error _ = record {
  kind = internal_error;
  code = codes "INTERNAL_ERROR";
  detail = codes "internal server error";
}
