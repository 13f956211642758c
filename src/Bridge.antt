-- ===== src/Bridge.antt =====
-- The connection between the server and an agent (automate/src/bridge).
pub mod Protocol
pub mod Link
mod Tests
