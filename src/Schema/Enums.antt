-- ===== src/Schema/Enums.antt =====
-- The enums of src/shared/types/common.ts and src/common/database/schema/enums.ts, with the
-- comparison that a query or a guard makes.
use Prim.Native.String.{String}
use obbian_ribe_booking_app.Base.{ℕ, ◌==◌, ◌≡◌, ◌↔◌, Bool, true, arith}

pub data UserRole : Type 0 where
  rider driver admin : UserRole

pub data RideStatus : Type 0 where
  requested matching accepted arrived in_progress completed cancelled : RideStatus

pub data RideType : Type 0 where
  cabx_saver cabx cabxl comfort auto two_wheeler : RideType

pub data DriverStatus : Type 0 where
  online offline on_ride : DriverStatus

pub data PaymentStatus : Type 0 where
  pending processing completed failed refunded : PaymentStatus

pub data PaymentMethod : Type 0 where
  upi cash wallet card : PaymentMethod

pub data CancellationReason : Type 0 where
  user_cancelled driver_cancelled no_driver_found system : CancellationReason

pub data OutboxStatus : Type 0 where
  pending processing published failed : OutboxStatus

pub data ScheduledStatus : Type 0 where
  pending dispatched cancelled : ScheduledStatus

abbrev ride_status_index : RideStatus → ℕ
ride_status_index RideStatus.requested = 0
ride_status_index RideStatus.matching = 1
ride_status_index RideStatus.accepted = 2
ride_status_index RideStatus.arrived = 3
ride_status_index RideStatus.in_progress = 4
ride_status_index RideStatus.completed = 5
ride_status_index RideStatus.cancelled = 6

unfoldable pub same_status : RideStatus → RideStatus → Bool
same_status a b = ride_status_index a == ride_status_index b

abbrev ride_type_index : RideType → ℕ
ride_type_index RideType.cabx_saver = 0
ride_type_index RideType.cabx = 1
ride_type_index RideType.cabxl = 2
ride_type_index RideType.comfort = 3
ride_type_index RideType.auto = 4
ride_type_index RideType.two_wheeler = 5

unfoldable pub same_ride_type : RideType → RideType → Bool
same_ride_type a b = ride_type_index a == ride_type_index b

abbrev driver_status_index : DriverStatus → ℕ
driver_status_index DriverStatus.online = 0
driver_status_index DriverStatus.offline = 1
driver_status_index DriverStatus.on_ride = 2

unfoldable pub same_driver_status : DriverStatus → DriverStatus → Bool
same_driver_status a b = driver_status_index a == driver_status_index b

-- The name of a ride status, as the database and the events spell it.
unfoldable pub status_name : RideStatus → String
status_name RideStatus.requested = "REQUESTED"
status_name RideStatus.matching = "MATCHING"
status_name RideStatus.accepted = "ACCEPTED"
status_name RideStatus.arrived = "ARRIVED"
status_name RideStatus.in_progress = "IN_PROGRESS"
status_name RideStatus.completed = "COMPLETED"
status_name RideStatus.cancelled = "CANCELLED"

pub same_status_refl : (a : RideStatus) → same_status a a ≡ true
unfolding same_status
same_status_refl a = ground arith

pub same_status_iff : (a b : RideStatus) → (same_status a b ≡ true) ↔ (a ≡ b)
unfolding same_status
same_status_iff a b = (λ h. ground arith, λ h. ground arith)

abbrev payment_status_index : PaymentStatus → ℕ
payment_status_index PaymentStatus.pending = 0
payment_status_index PaymentStatus.processing = 1
payment_status_index PaymentStatus.completed = 2
payment_status_index PaymentStatus.failed = 3
payment_status_index PaymentStatus.refunded = 4

unfoldable pub same_payment_status : PaymentStatus → PaymentStatus → Bool
same_payment_status a b = payment_status_index a == payment_status_index b

abbrev outbox_status_index : OutboxStatus → ℕ
outbox_status_index OutboxStatus.pending = 0
outbox_status_index OutboxStatus.processing = 1
outbox_status_index OutboxStatus.published = 2
outbox_status_index OutboxStatus.failed = 3

unfoldable pub same_outbox_status : OutboxStatus → OutboxStatus → Bool
same_outbox_status a b = outbox_status_index a == outbox_status_index b
