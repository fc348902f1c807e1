-- ===== src/Shared/Errors.antt =====
-- The errors of the services: internal/shared/apperror/error.go.
use avito_kitchen.Base.{Text}

pub data Kind : Type 0 where
  bad_request unauthorized forbidden not_found conflict validation too_large : Kind
  too_many_requests internal_error unavailable : Kind

-- `Error` without its cause.
pub record AppError : Type 0 where
  pub kind : Kind
  pub code : Text
  pub detail : Text
