-- ===== src/Notifications.antt =====
-- The notifications module (src/modules/notifications) and the text messages of src/common/sms.
pub mod Http
pub mod Providers
pub mod Service
pub mod Worker
pub mod Laws
pub mod Dispatch
pub mod RideState
