-- ===== src/Platform/Service/Answers.antt =====
-- Unexpected errors of the repository: `mapRepositoryError` of
-- internal/platform/service/service.go.
use avito_kitchen.Base.{◌≡◌}
use avito_kitchen.Platform.Store.{RepoError, Fault, internal}
use avito_kitchen.Platform.Store
use avito_kitchen.Platform.Service.{map_repository_error}
use avito_kitchen.Shared.Errors.{internal_error}

-- The errors that no caller of the API should see as such.
pub data IsUnexpected : RepoError → Type 0 where
  server : (f : Fault) → IsUnexpected (internal f)
  no_job : IsUnexpected Store.no_outbox_job
  lost_lease : IsUnexpected Store.outbox_lease_lost

-- An error of the repository that is answered as an internal one is a failure of a statement, or
-- one of the two errors of a job that only the worker meets.
pub map_repository_error-IsUnexpected :
    (e : RepoError) → (map_repository_error e).kind ≡ internal_error → IsUnexpected e
unfolding map_repository_error
map_repository_error-IsUnexpected (internal f) h = server f
map_repository_error-IsUnexpected Store.no_outbox_job h = no_job
map_repository_error-IsUnexpected Store.outbox_lease_lost h = lost_lease
map_repository_error-IsUnexpected _ h = cc
