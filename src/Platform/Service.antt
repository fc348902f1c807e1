-- ===== src/Platform/Service.antt =====
-- What the services answer to the errors of the repository, and their check of a checkout's items:
-- internal/platform/service/service.go and orders.go.
pub mod Answers
pub mod Items
pub mod Checkout
pub mod Partners
pub mod Venues
use avito_kitchen.Base.{
  ℕ, Bool, true, false, ◌&&◌, ◌||◌, not, ltb, ◌==◌, leb, Option, none, some, List, [], ◌∷◌, Text,
  codes, length, exists_row, same, if◌then◌else◌,
}
use avito_kitchen.Platform.Store.{RepoError}
use avito_kitchen.Platform.Store
use avito_kitchen.Platform.Domain.{OrderItemRequest}
use avito_kitchen.Shared.Errors.{
  AppError, not_found, conflict, forbidden, validation, internal_error,
}
use avito_kitchen.Shared.Transaction.{Result, ok, err, refuse, ◌>>=◌, ◌>>◌}

abbrev pub invalid_request : Text → AppError
invalid_request detail = record {
  kind = validation;
  code = codes "VALIDATION_FAILED";
  detail = detail;
}

abbrev pub internal_server_error : AppError
internal_server_error = record {
  kind = internal_error;
  code = codes "INTERNAL_ERROR";
  detail = codes "internal server error";
}

-- `mapRepositoryError`.
unfoldable pub map_repository_error : RepoError → AppError
map_repository_error Store.venue_not_found = record {
  kind = not_found;
  code = codes "VENUE_NOT_FOUND";
  detail = codes "venue was not found";
}
map_repository_error Store.menu_not_found = record {
  kind = not_found;
  code = codes "MENU_NOT_FOUND";
  detail = codes "menu was not found";
}
map_repository_error Store.stale_menu_version = record {
  kind = conflict;
  code = codes "STALE_MENU_VERSION";
  detail = codes "menu version is older than the current version";
}
map_repository_error Store.menu_version_conflict = record {
  kind = conflict;
  code = codes "MENU_VERSION_CONFLICT";
  detail = codes "menu version was already used with another snapshot";
}
map_repository_error Store.venue_closed = record {
  kind = conflict;
  code = codes "VENUE_CLOSED";
  detail = codes "venue is not accepting orders";
}
map_repository_error Store.menu_changed = record {
  kind = conflict;
  code = codes "MENU_CHANGED";
  detail = codes "menu changed after it was loaded";
}
map_repository_error Store.items_unavailable = record {
  kind = conflict;
  code = codes "ITEMS_UNAVAILABLE";
  detail = codes "one or more items are unavailable";
}
map_repository_error Store.idempotency_key_reused = record {
  kind = conflict;
  code = codes "IDEMPOTENCY_KEY_REUSED";
  detail = codes "idempotency key was used with another request";
}
map_repository_error Store.minimum_order =
    invalid_request (codes "minimum order amount is not reached")
map_repository_error Store.amount_overflow = invalid_request (codes "order amount is too large")
map_repository_error Store.order_not_found = record {
  kind = not_found;
  code = codes "ORDER_NOT_FOUND";
  detail = codes "order was not found";
}
map_repository_error Store.order_venue_mismatch = record {
  kind = forbidden;
  code = codes "ORDER_VENUE_MISMATCH";
  detail = codes "order belongs to another venue";
}
map_repository_error Store.event_conflict = record {
  kind = conflict;
  code = codes "EVENT_ID_CONFLICT";
  detail = codes "event id was already used for another event";
}
map_repository_error Store.event_sequence_conflict = record {
  kind = conflict;
  code = codes "EVENT_SEQUENCE_CONFLICT";
  detail = codes "event sequence is not the next expected value";
}
map_repository_error Store.invalid_order_transition = record {
  kind = conflict;
  code = codes "INVALID_ORDER_TRANSITION";
  detail = codes "event is not allowed from the current order status";
}
map_repository_error Store.order_cancellation_not_allowed = record {
  kind = conflict;
  code = codes "ORDER_CANCELLATION_NOT_ALLOWED";
  detail = codes "order cannot be cancelled in its current state";
}
map_repository_error _ = internal_server_error

-- The loop of `validateCheckout` over the items; `seen` holds the identifiers of the items before,
-- and `is_uuid` is `shareduuid.IsValid`.
unfoldable pub validate_items :
    (Text → Bool) → List Text → List OrderItemRequest → Result AppError (Unit {0})
validate_items is_uuid seen [] = ok tt
validate_items is_uuid seen (r ∷ rs) = do
  refuse (not (is_uuid r.menu_item_id) || ltb r.quantity 1 || ltb 100 r.quantity)
      (invalid_request (codes "checkout item is invalid"))
  refuse (exists_row (same r.menu_item_id) seen)
      (invalid_request (codes "checkout items must be unique"))
  validate_items is_uuid (r.menu_item_id ∷ seen) rs
