-- ===== src/Ratings.antt =====
-- The ratings module (src/modules/ratings).
pub mod Service
pub mod Laws
