-- ===== src/Matching.antt =====
-- The matching module (src/modules/matching).
pub mod Service
pub mod Claim
pub mod Assignment
pub mod Late
