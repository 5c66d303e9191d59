-- ===== src/Http.antt =====
-- What stands between a request and its handler (src/common/auth, src/common/interceptors, and the guard
-- of src/modules/rides/guards).
pub mod Idempotency
pub mod Guards
