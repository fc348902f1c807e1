-- ===== src/Shared.antt =====
-- internal/shared: what both services use.
pub mod Transaction
pub mod Errors
pub mod Uuid
pub mod Strings
pub mod Base64
pub mod Integers
pub mod Environment
pub mod Http
mod Tests
