-- ===== src/Tests.antt =====
-- The theorems at concrete inputs, over a platform that runs.
mod Memory
mod Ride
mod Pricing
mod Promo
mod Match
mod Payment
mod Booking
mod System
mod Auth
mod Relay
mod Access
mod Track
mod Summary
mod Notify
mod Poll
mod Connect
