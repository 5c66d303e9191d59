-- ===== src/Outbox.antt =====
-- The relay of the transactional outbox (src/common/events).
pub mod Relay
pub mod Delivery
pub mod Worker
pub mod Round
pub mod Weight
pub mod Unique
pub mod Drain
pub mod Claimed
pub mod Delivered
