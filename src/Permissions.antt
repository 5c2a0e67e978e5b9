-- ===== src/Permissions.antt =====
-- Who receives the alerts of each unit (src/permissions).
pub mod Cache
pub mod Loader
pub mod Fixtures
mod Tests
