-- ===== src/Rides/Controller.antt =====
-- src/modules/rides/controllers/rides.controller.ts: what the routes make of the services, with the guards that
-- stand before them. The texts of a request have been read; a rating is in Rides.Lifecycle.
use Prim.Native.String.{String}
use mathlib.Core.Option
use obbian_ribe_booking_app.Base.{
  ap, ◌∙◌, ℕ, ◌≡◌, true, false, Option, none, some, List, map, if◌then◌else◌, ℤ, pos, sub_ℕ, arith,
}
use obbian_ribe_booking_app.Platform.{Platform}
use obbian_ribe_booking_app.World.{World, Action, ◌>>=◌, pure, throw, Failure, ok}
use obbian_ribe_booking_app.World.Inversion.{then_rest}
use obbian_ribe_booking_app.Schema.{
  Ride, RideStatus, RideType, CancellationReason, ScheduledRide, ScheduledStatus,
}
use obbian_ribe_booking_app.Auth.Token.{JwtPayload}
use obbian_ribe_booking_app.Http.Guards.{
  RideParam, bearer_token, is_participant, guarded, guarded_participant,
}
use obbian_ribe_booking_app.Rides.Service.{get_ride, changed_ride}
use obbian_ribe_booking_app.Rides.StateMachine.{is_terminal}
use obbian_ribe_booking_app.Rides.Lifecycle.{CancelledBy, cancel, cancellation_fee}
use obbian_ribe_booking_app.Rides.Lifecycle.History.{ride_row}
use obbian_ribe_booking_app.Rides.Lifecycle.Outcomes.{cancel_eq}
use obbian_ribe_booking_app.Rides.Request.{RideRequest, RequestResult}
use obbian_ribe_booking_app.Rides.Lists.{
  get_active_rides_for_rider, get_history_for_rider, list_for_rider,
}
use obbian_ribe_booking_app.Rides.Scheduled.{ScheduleRideInput, schedule, cancel_scheduled}

-- What a client is shown of a ride.
pub record RideView : Type 0 where
  pub ride_id : ℕ
  pub ride_type : RideType
  pub status : RideStatus
  pub pickup : ℤ × ℤ
  pub dropoff : ℤ × ℤ
  pub estimated_fare : ℕ
  pub total_fare : Option ℕ
  pub distance_km : ℕ
  pub duration_min : ℕ
  pub driver_id : Option ℕ
  pub created_at : ℕ
  pub completed_at : Option ℕ
  pub cancellation_reason : Option CancellationReason
  pub cancellation_fee : ℕ

unfoldable pub serialize : Ride → RideView
serialize ride = record {
  ride_id = ride.id;
  ride_type = ride.ride_type;
  status = ride.status;
  pickup = (ride.pickup_lat, ride.pickup_lon);
  dropoff = (ride.dropoff_lat, ride.dropoff_lon);
  estimated_fare = ride.estimated_fare;
  total_fare = ride.total_fare;
  distance_km = ride.distance_km;
  duration_min = ride.duration_min;
  driver_id = ride.driver_id;
  created_at = ride.created_at;
  completed_at = ride.completed_at;
  cancellation_reason = ride.cancellation_reason;
  cancellation_fee = ride.cancellation_fee;
}

pub record RequestRideResult : Type 0 where
  pub ride_id : ℕ
  pub estimated_fare : ℕ
  pub surge_multiplier : ℕ
  pub promo_discount : ℕ
  pub payable_fare : ℤ
  pub estimated_time : ℕ
  pub status : RideStatus
  pub driver_id : Option ℕ

unfoldable pub request_result : RequestResult → RequestRideResult
request_result r = record {
  ride_id = r.ride.id;
  estimated_fare = r.ride.estimated_fare;
  surge_multiplier = r.ride.surge_multiplier;
  promo_discount = r.promo_discount;
  payable_fare = sub_ℕ r.ride.estimated_fare r.promo_discount;
  estimated_time = r.estimated_seconds;
  status = r.ride.status;
  driver_id = r.ride.driver_id;
}

-- The input of a scheduled ride, whose city is Delhi if none is given.
unfoldable pub schedule_input : ScheduleRideInput → Option String → ScheduleRideInput
schedule_input dto none = record dto { city = "Delhi" }
schedule_input dto (some city) = record dto { city = city }

pub record ScheduleRideResult : Type 0 where
  pub scheduled_ride_id : ℕ
  pub scheduled_for : ℕ
  pub status : ScheduledStatus
  pub ride_type : RideType
  pub pickup : ℤ × ℤ
  pub dropoff : ℤ × ℤ

unfoldable pub schedule_result : ScheduledRide → ScheduleRideResult
schedule_result s = record {
  scheduled_ride_id = s.id;
  scheduled_for = s.scheduled_for;
  status = s.status;
  ride_type = s.ride_type;
  pickup = (s.pickup_lat, s.pickup_lon);
  dropoff = (s.dropoff_lat, s.dropoff_lon);
}

pub record ScheduledView : Type 0 where
  pub scheduled_ride_id : ℕ
  pub scheduled_for : ℕ
  pub status : ScheduledStatus
  pub ride_type : RideType
  pub ride_id : Option ℕ

unfoldable pub scheduled_view : ScheduledRide → ScheduledView
scheduled_view s = record {
  scheduled_ride_id = s.id;
  scheduled_for = s.scheduled_for;
  status = s.status;
  ride_type = s.ride_type;
  ride_id = s.ride_id;
}

pub record CancelRideResult : Type 0 where
  pub refund_amount : ℤ
  pub status : RideStatus

-- `dto.cancelledBy ?? 'RIDER'`
abbrev by_rider : Option CancelledBy → CancelledBy
by_rider none = CancelledBy.rider
by_rider (some by) = by

module _ ⦃pf : Platform⦄ where
  -- A guard that says no makes a ForbiddenException.
  unfoldable pub for_participant :
      {A : Type 0} (verify : World → String → Option JwtPayload)
      → Option String
      → RideParam
      → Action A
      → Action A
  for_participant verify header param handler = guarded verify header param >>= λ allowed.
      if allowed then handler else throw Failure.forbidden

  unfoldable pub get_ride_view : ℕ → Action RideView
  get_ride_view ride_id = get_ride ride_id >>= λ ride. pure (serialize ride)

  unfoldable pub get_active : JwtPayload → Action (List RideView)
  get_active user = get_active_rides_for_rider user.sub >>= λ rides. pure (map serialize rides)

  -- Twenty rides from the first on, if the request does not say otherwise.
  unfoldable pub get_history : JwtPayload → Option ℕ → Option ℕ → Action (List RideView)
  get_history user limit offset =
      get_history_for_rider user.sub (Option.get_or limit 20) (Option.get_or offset 0) >>= λ rides.
      pure (map serialize rides)

  unfoldable pub list_scheduled : JwtPayload → Action (List ScheduledView)
  list_scheduled user = list_for_rider user.sub >>= λ rides. pure (map scheduled_view rides)

  unfoldable pub schedule_ride :
      ℕ → JwtPayload → ScheduleRideInput → Option String → Action ScheduleRideResult
  schedule_ride max_hours_ahead user dto city =
      schedule max_hours_ahead (record (schedule_input dto city) { rider_id = user.sub }) >>= λ s.
      pure (schedule_result s)

  unfoldable pub cancel_scheduled_ride : JwtPayload → ℕ → Action (Unit {0})
  cancel_scheduled_ride user scheduled_ride_id = cancel_scheduled user.sub scheduled_ride_id

  unfoldable pub request_ride_with :
      (RideRequest → Action RequestResult) → JwtPayload → RideRequest → Action RequestRideResult
  request_ride_with request user dto =
      request (record dto { rider_id = user.sub }) >>= λ r. pure (request_result r)

  unfoldable pub cancel_ride : ℕ → CancellationReason → Option CancelledBy → Action CancelRideResult
  cancel_ride ride_id reason cancelled_by =
      cancel ride_id reason (by_rider cancelled_by) >>= λ result.
      pure (record { refund_amount = result.refund_amount; status = result.ride.status })

  -- PUT rides/:rideId/cancel
  unfoldable pub cancel_route :
      (World → String → Option JwtPayload)
      → Option String
      → ℕ
      → CancellationReason
      → Option CancelledBy
      → Action CancelRideResult
  cancel_route verify header ride_id reason cancelled_by =
      for_participant verify header (RideParam.ride_id ride_id)
        (cancel_ride ride_id reason cancelled_by)

  cancel_ride_system :
      (ride_id : ℕ) (reason : CancellationReason) (ride : Ride) (w : World)
      → ride_row w ride_id ≡ some ride
      → is_terminal ride.status ≡ false
      → (cancel_ride ride_id reason (some CancelledBy.system) w).0
        ≡ ok (record { refund_amount = pos ride.estimated_fare; status = RideStatus.cancelled })
  unfolding cancel_ride cancellation_fee changed_ride
  cancel_ride_system ride_id reason ride w there open_ride =
      let (done, _) = cancel_eq ride_id reason CancelledBy.system w ride there open_ride in
      rw done (ground arith)

  -- A participant of a ride that is not over who cancels it with SYSTEM as the canceller pays no
  -- fee, however late it is: the refund is the whole estimated fare.
  pub cancel_route_system :
      (verify : World → String → Option JwtPayload) (header : Option String) (token : String)
      (user : JwtPayload) (ride_id : ℕ) (reason : CancellationReason) (ride : Ride) (w : World)
      → bearer_token header ≡ some token
      → verify w token ≡ some user
      → ride_row w ride_id ≡ some ride
      → is_participant ride user.sub ≡ true
      → is_terminal ride.status ≡ false
      → (cancel_route verify header ride_id reason (some CancelledBy.system) w).0
        ≡ ok (record { refund_amount = pos ride.estimated_fare; status = RideStatus.cancelled })
  unfolding cancel_route for_participant
  cancel_route_system verify header token user ride_id reason ride w held known there takes_part
        open_ride =
      ap (λ r. r.0)
        (then_rest (guarded verify header (RideParam.ride_id ride_id))
          (λ allowed.
            if allowed
            then cancel_ride ride_id reason (some CancelledBy.system)
            else throw Failure.forbidden)
          (guarded_participant verify header token user ride_id ride w held known there takes_part))
      ∙ cancel_ride_system ride_id reason ride w there open_ride
