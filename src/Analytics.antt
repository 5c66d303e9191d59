-- ===== src/Analytics.antt =====
-- The analytics module (src/modules/analytics).
pub mod Service
pub mod Days
pub mod Routes
pub mod Totals
