-- ===== src/Auth.antt =====
-- The auth module (src/modules/auth).
pub mod Otp
pub mod Token
pub mod Service
