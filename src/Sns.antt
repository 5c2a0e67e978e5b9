-- ===== src/Sns.antt =====
-- The SNS side of the program (src/sns).
pub mod Models
pub mod Message
pub mod Client
pub mod Metrics
pub mod Publisher
pub mod Dispatcher
pub mod Worker
mod Tests
