-- ===== src/Kafka.antt =====
-- The consumers of Kafka topics (src/kafka).
pub mod ControlPlane
pub mod Alerts
pub mod Settings
mod Tests
