-- ===== src/Payments.antt =====
-- The payments module (src/modules/payments).
pub mod Service
pub mod Laws
pub mod Settlement
