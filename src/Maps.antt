-- ===== src/Maps.antt =====
-- The maps module (src/modules/maps).
pub mod Api
pub mod Service
pub mod Cache
