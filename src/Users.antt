-- ===== src/Users.antt =====
-- The users module (src/modules/users).
pub mod Service
pub mod Laws
