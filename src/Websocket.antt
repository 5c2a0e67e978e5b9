-- ===== src/Websocket.antt =====
-- The WebSocket side of the program (src/websocket).
pub mod Registry
pub mod Dispatcher
pub mod Auth
pub mod Handler
pub mod Server
pub mod System
pub mod Fixtures
mod Tests
