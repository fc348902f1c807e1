-- ===== src/Link.antt =====
-- The two services together: what one sends, as the other reads it.
pub mod Menu
pub mod Decision
mod Tests
