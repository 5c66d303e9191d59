-- ===== src/Promos.antt =====
-- The promos module (src/modules/promos).
pub mod Service
pub mod Usage
pub mod Race
