-- ===== src/Platform.antt =====
-- internal/platform: the service that customers and partners call.
pub mod Store
pub mod Run
pub mod Domain
pub mod Orders
pub mod Checkout
pub mod Outbox
pub mod Events
pub mod Partner
pub mod Catalog
pub mod Client
pub mod Worker
pub mod Service
pub mod Tokens
pub mod Http
pub mod Config
pub mod Consistency
pub mod System
mod Tests
