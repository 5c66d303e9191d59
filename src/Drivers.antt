-- ===== src/Drivers.antt =====
-- The drivers module (src/modules/drivers).
pub mod Service
pub mod Matchable
pub mod Registration
pub mod Location
