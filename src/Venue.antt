-- ===== src/Venue.antt =====
-- internal/venue: the service of one venue, which decides orders and reports their progress.
pub mod Store
pub mod Run
pub mod Decide
pub mod Lifecycle
pub mod Cancel
pub mod Callbacks
pub mod Menu
pub mod Worker
pub mod Service
pub mod Client
pub mod Http
pub mod Config
pub mod Numbering
pub mod System
mod Tests
