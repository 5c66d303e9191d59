-- ===== src/Rides.antt =====
-- The rides module (src/modules/rides).
pub mod StateMachine
pub mod Service
pub mod Lifecycle
pub mod Fraud
pub mod Request
pub mod Booking
pub mod Lists
pub mod Scheduled
pub mod Controller
