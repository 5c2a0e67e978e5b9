-- ===== src/Models.antt =====
-- The messages of the alerts topic (src/models).
pub mod AlertEvent
mod Suite
mod Tests
