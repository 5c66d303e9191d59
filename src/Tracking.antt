-- ===== src/Tracking.antt =====
-- The tracking module (src/modules/tracking).
pub mod Gateway
pub mod Connection
pub mod Reconnect
pub mod Polling
