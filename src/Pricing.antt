-- ===== src/Pricing.antt =====
-- The pricing module (src/modules/pricing).
pub mod Fare
pub mod Surge
pub mod Quote
