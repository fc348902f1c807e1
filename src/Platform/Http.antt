-- ===== src/Platform/Http.antt =====
-- The HTTP side of the platform, internal/platform/transport/http.
pub mod Requests
pub mod Orders
pub mod Responses
pub mod Handlers
pub mod Partners
pub mod Limiter
