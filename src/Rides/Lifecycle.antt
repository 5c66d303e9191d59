-- ===== src/Rides/Lifecycle.antt =====
-- The operations of a ride after its request: driverArrive, driverStart, completeRide and cancel of
-- src/modules/rides/services/rides.service.ts, rateRide of rides.controller.ts, and arrived, start and
-- complete of driver-ride-actions.controller.ts. A void promise runs to its end before its caller.
pub mod History
pub mod Transition
pub mod Calls
pub mod Outcomes
use mathlib.Core.Option
use obbian_ribe_booking_app.Base.{
  ℕ, ◌+◌, ◌*◌, ◌-◌, ◌==◌, Bool, true, false, not, Option, none, some, ltb, if◌then◌else◌, ℤ, sub_ℕ,
}
use obbian_ribe_booking_app.Platform.{Platform}
use obbian_ribe_booking_app.World.{
  World, Action, ◌>>=◌, ◌>>◌, pure, throw_if, gets, ignore_error, Failure,
}
use obbian_ribe_booking_app.Schema.{Ride, FareConfig, RideStatus, CancellationReason, same_status}
use obbian_ribe_booking_app.Rides.StateMachine.{can_cancel}
use obbian_ribe_booking_app.Rides.Service.{get_ride, transition, transition_as}
use obbian_ribe_booking_app.Pricing.Fare.{get_config, calculate_fare}
use obbian_ribe_booking_app.Drivers.Service.{complete_ride as restore_driver}

pub data CancelledBy : Type 0 where
  rider driver system : CancelledBy

-- Half a rupee is 50, so the fee of ₹50 is 5000.
unfoldable pub cancellation_fee : CancelledBy → ℕ → ℕ → ℕ
cancellation_fee CancelledBy.rider created_at now =
    if ltb (created_at + 2 * 60000) now then 5000 else 0
cancellation_fee CancelledBy.driver created_at now = 5000
cancellation_fee CancelledBy.system created_at now = 0

pub record Cancellation : Type 0 where
  pub ride : Ride
  pub refund_amount : ℤ

-- Who a request acts for may be no user, in which case it is not the driver of a ride.
abbrev same_driver : Option ℕ → ℕ → Bool
same_driver none d = false
same_driver (some e) d = e == d

-- The patch of a rating: `riderRating` if the caller says that it rates as the rider.
unfoldable pub rating_patch : Bool → ℕ → Ride → Ride
rating_patch true rating r = record r { rider_rating = some rating }
rating_patch false rating r = record r { driver_rating = some rating }

unfoldable pub cancellation_patch : CancellationReason → ℕ → ℕ → Ride → Ride
cancellation_patch reason fee now r = record r {
  cancellation_reason = some reason;
  cancellation_fee = fee;
  cancelled_at = some now;
}

unfoldable pub completion_patch : ℕ → ℕ → Ride → Ride
completion_patch total_fare now r = record r {
  total_fare = some total_fare;
  completed_at = some now;
}

-- Math.max(0, fare - discount), of the fare for the ride's stored distance and duration.
unfoldable pub final_fare : FareConfig → Ride → ℕ
final_fare config ride =
    calculate_fare config (10 * ride.distance_km) (60 * ride.duration_min) - ride.promo_discount

module _ ⦃pf : Platform⦄ where
  unfoldable pub driver_arrive : ℕ → Action Ride
  driver_arrive ride_id = do
    now ← gets (λ w. w.now)
    transition ride_id RideStatus.arrived (λ r. record r { arrived_at = some now })

  unfoldable pub driver_start : ℕ → Action Ride
  driver_start ride_id = do
    now ← gets (λ w. w.now)
    transition ride_id RideStatus.in_progress (λ r. record r { started_at = some now })

  abbrev restore : Option ℕ → Ride → Action (Unit {0})
  restore none ride = pure tt
  restore (some driver_id) ride =
      ignore_error (restore_driver driver_id ride.pickup_lat ride.pickup_lon)

  unfoldable pub complete_ride : ℕ → Action Ride
  complete_ride ride_id = do
    ride ← get_ride ride_id
    config ← get_config ride.city ride.ride_type
    now ← gets (λ w. w.now)
    completed ←
        transition ride_id RideStatus.completed (completion_patch (final_fare config ride) now)
    restore ride.driver_id ride
    pure completed

  -- What `cancel` does once it has checked the status.
  unfoldable pub cancel_checked : ℕ → Ride → CancellationReason → CancelledBy → Action Cancellation
  cancel_checked ride_id ride reason cancelled_by = gets (λ w. w.now) >>= λ now.
      let fee = cancellation_fee cancelled_by ride.created_at now in
      transition_as ride_id RideStatus.cancelled (cancellation_patch reason fee now)
        "RIDE_CANCELLED"
      >>= λ cancelled.
          pure (record { ride = cancelled; refund_amount = sub_ℕ cancelled.estimated_fare fee })

  unfoldable pub cancel : ℕ → CancellationReason → CancelledBy → Action Cancellation
  cancel ride_id reason cancelled_by = do
    ride ← get_ride ride_id
    throw_if (not (can_cancel ride.status)) Failure.bad_request
    cancel_checked ride_id ride reason cancelled_by

  unfoldable pub rate_ride : ℕ → Bool → ℕ → Action (Unit {0})
  rate_ride ride_id as_rider rating = get_ride ride_id >>= λ ride.
      throw_if (not (same_status ride.status RideStatus.completed)) Failure.bad_request
      >> (transition ride_id RideStatus.completed (rating_patch as_rider rating) >>= λ _. pure tt)

  unfoldable pub assert_assigned_driver : ℕ → ℕ → Action Ride
  assert_assigned_driver ride_id driver_id = do
    ride ← get_ride ride_id
    throw_if (not (same_driver ride.driver_id driver_id)) Failure.forbidden
    pure ride

  unfoldable pub arrived : ℕ → ℕ → Action Ride
  arrived user_id ride_id = assert_assigned_driver ride_id user_id >>= λ _. driver_arrive ride_id

  unfoldable pub start : ℕ → ℕ → Action Ride
  start user_id ride_id = assert_assigned_driver ride_id user_id >>= λ _. driver_start ride_id

  unfoldable pub complete : ℕ → ℕ → Action Ride
  complete user_id ride_id = assert_assigned_driver ride_id user_id >>= λ _. complete_ride ride_id
