-- ===== src/Tests/Ride.antt =====
-- Rides: a ride of rider 1 that driver 7 has accepted, and what becomes of it.
use obbian_ribe_booking_app.Base.{
  ℕ, ◌-◌, ◌≡◌, ◌≢◌, ◌≤◌, find, refl, true, false, none, some, [], ◌∷◌, pos, sub_ℕ,
}
use obbian_ribe_booking_app.World.{World, ok, err, Failure, Outcome}
use obbian_ribe_booking_app.Schema.{
  Ride, RideStatus, RideType, PaymentStatus, PaymentMethod, Driver, DriverStatus, FareConfig,
  CancellationReason, same_ride_type, same_status,
}
use obbian_ribe_booking_app.Pricing.Fare.{get_config, calculate_fare, surged_fare}
use obbian_ribe_booking_app.Base.Double.{double, add, mul, round, nearest}
use obbian_ribe_booking_app.Drivers.Service.Laws.{driver_row}
use obbian_ribe_booking_app.Rides.StateMachine.{allows_transition, is_terminal}
use obbian_ribe_booking_app.Rides.StateMachine.Graph.{
  here, then, accept, arrive, progress, Reach-progress,
}
use obbian_ribe_booking_app.Rides.Service.{
  write_ride_event, transition_as, get_ride, commit_transition, update_ride, changed_ride,
}
use obbian_ribe_booking_app.Rides.Lifecycle.{
  rating_patch, cancel, complete_ride, CancelledBy, final_fare,
}
use obbian_ribe_booking_app.Rides.Lifecycle.History.{ride_row}
use obbian_ribe_booking_app.Rides.Lifecycle.Transition.{
  transition_as_commits, commit_transition_race,
}
use obbian_ribe_booking_app.Rides.Lifecycle.Outcomes.{IsFee, cancel_lem, complete_ride_lem}
use obbian_ribe_booking_app.Tests.Memory.{memory, empty_server}

abbrev pub a_ride : RideStatus → Ride
a_ride status = record {
  id = 10;
  rider_id = 1;
  driver_id = some 7;
  ride_type = RideType.cabx;
  status = status;
  pickup_lat = pos 0;
  pickup_lon = pos 0;
  pickup_address = none;
  dropoff_lat = pos 0;
  dropoff_lon = pos 0;
  dropoff_address = none;
  city = "Delhi";
  estimated_fare = 20000;
  total_fare = none;
  surge_multiplier = 100;
  distance_km = 500;
  duration_min = 20;
  promo_code = none;
  promo_discount = 0;
  payment_status = PaymentStatus.pending;
  payment_method = PaymentMethod.upi;
  accepted_at = none;
  arrived_at = none;
  started_at = none;
  completed_at = none;
  cancelled_at = none;
  cancellation_reason = none;
  cancellation_fee = 0;
  rider_rating = none;
  driver_rating = none;
  created_at = 0;
  updated_at = 0;
}

abbrev pub a_driver : DriverStatus → Driver
a_driver status = record {
  user_id = 7;
  license_number = "DL-1";
  vehicle_registration = "DL-2";
  vehicle_model = none;
  vehicle_color = none;
  vehicle_type = RideType.cabx;
  status = status;
  rating = 500;
  total_rides = 3;
  completion_rate = 10000;
  acceptance_rate = 10000;
  wallet_balance = pos 0;
  bank_account = none;
  upi_id = none;
  last_location_update_at = none;
  online_since = none;
  created_at = 0;
  updated_at = 0;
}

abbrev pub a_config : FareConfig
a_config = record {
  id = 1;
  city = "Delhi";
  ride_type = RideType.cabx;
  base_fare = 5000;
  per_km_rate = 1200;
  per_minute_rate = 150;
  surge_multiplier = 100;
  minimum_fare = 8000;
  commission_rate = 2000;
  is_active = true;
}

-- The state with one ride, its driver and the config of its fare, 200 seconds after its request.
abbrev pub one_ride : RideStatus → World
one_ride status = record {
  rides = a_ride status ∷ [];
  drivers = a_driver DriverStatus.on_ride ∷ [];
  scheduled_rides = [];
  payments = [];
  promos = [];
  fare_configs = a_config ∷ [];
  outbox_events = [];
  users = [];
  refresh_tokens = [];
  saved_locations = [];
  next_id = 100;
  redis = empty_server;
  redis_up = true;
  published = [];
  jobs = [];
  queue_up = true;
  now = 200000;
}

allows_transition_iff_test : allows_transition RideStatus.matching RideStatus.arrived ≡ false
unfolding allows_transition
allows_transition_iff_test = refl

Reach-progress_example : progress RideStatus.matching ≤ progress RideStatus.arrived
Reach-progress_example = Reach-progress (then accept (then arrive here))

pub ride_at : (s : RideStatus) → ride_row (one_ride s) 10 ≡ some (a_ride s)
unfolding find
ride_at s = refl

refused :
    (transition_as 10 RideStatus.completed
      (rating_patch true 5)
      "RIDE_COMPLETED"
      (one_ride RideStatus.accepted)).0
    ≡ err Failure.bad_request
unfolding transition_as get_ride allows_transition find
refused = refl

rating_patch-id : (r : Ride) → (rating_patch true 5 r).id ≡ r.id
unfolding rating_patch
rating_patch-id r = refl

arrives_legal : allows_transition RideStatus.accepted RideStatus.arrived ≡ true
unfolding allows_transition
arrives_legal = refl

transition_as_commits_example :
    (transition_as 10 RideStatus.arrived
      (rating_patch true 5)
      "RIDE_ARRIVED"
      (one_ride RideStatus.accepted)).0
    ≡ ok (changed_ride RideStatus.arrived (rating_patch true 5) 200000 (a_ride RideStatus.accepted))
transition_as_commits_example =
    (transition_as_commits 10 RideStatus.arrived (rating_patch true 5) "RIDE_ARRIVED"
      (one_ride RideStatus.accepted) (a_ride RideStatus.accepted) rating_patch-id
      (ride_at RideStatus.accepted) arrives_legal).0

abbrev arrival : World → Outcome Ride × World
arrival =
    commit_transition 10 RideStatus.accepted RideStatus.arrived (rating_patch true 5) "RIDE_ARRIVED"

arrival_wins :
    (arrival (one_ride RideStatus.accepted)).0
    ≡ ok (changed_ride RideStatus.arrived (rating_patch true 5) 200000 (a_ride RideStatus.accepted))
unfolding commit_transition update_ride find same_status write_ride_event
arrival_wins = refl

other_status : RideStatus.arrived ≢ RideStatus.accepted
other_status e = cc

commit_transition_race_example :
    commit_transition 10 RideStatus.accepted RideStatus.cancelled
      (rating_patch true 5)
      "RIDE_CANCELLED"
      (arrival (one_ride RideStatus.accepted)).1
    ≡ (err Failure.conflict, (arrival (one_ride RideStatus.accepted)).1)
commit_transition_race_example =
    commit_transition_race 10 RideStatus.accepted RideStatus.arrived (rating_patch true 5)
      "RIDE_ARRIVED" (one_ride RideStatus.accepted) RideStatus.cancelled (rating_patch true 5)
      "RIDE_CANCELLED" other_status arrival_wins

arrived_is_open : is_terminal RideStatus.arrived ≡ false
unfolding is_terminal same_status
arrived_is_open = refl

cancel_lem_example :
    let result =
      cancel 10 CancellationReason.user_cancelled CancelledBy.rider (one_ride RideStatus.arrived) in
    (fee : ℕ) × (s : Ride) × IsFee CancelledBy.rider 0 200000 fee
    × (s ≡ record (a_ride RideStatus.arrived) {
      status = RideStatus.cancelled;
      cancellation_reason = some CancellationReason.user_cancelled;
      cancellation_fee = fee;
      cancelled_at = some 200000;
      updated_at = 200000;
    })
    × (result.0 ≡ ok (record { ride = s; refund_amount = sub_ℕ 20000 fee }))
    × (ride_row result.1 10 ≡ some s)
cancel_lem_example =
    cancel_lem 10 CancellationReason.user_cancelled CancelledBy.rider (one_ride RideStatus.arrived)
      (a_ride RideStatus.arrived) (ride_at RideStatus.arrived) arrived_is_open

completes_legal : allows_transition RideStatus.in_progress RideStatus.completed ≡ true
unfolding allows_transition
completes_legal = refl

config_at :
    get_config "Delhi" RideType.cabx (one_ride RideStatus.in_progress)
    ≡ (ok a_config, one_ride RideStatus.in_progress)
unfolding get_config find same_ride_type
config_at = refl

pub driver_of : (s : RideStatus) → driver_row (one_ride s) 7 ≡ some (a_driver DriverStatus.on_ride)
unfolding find
driver_of s = refl

complete_ride_lem_example :
    (complete_ride 10 (one_ride RideStatus.in_progress)).0
    ≡ ok (record (a_ride RideStatus.in_progress) {
      status = RideStatus.completed;
      total_fare = some (calculate_fare a_config 5000 1200 - 0);
      completed_at = some 200000;
      updated_at = 200000;
    })
complete_ride_lem_example =
    (complete_ride_lem 10 (one_ride RideStatus.in_progress) (a_ride RideStatus.in_progress) a_config
      (a_driver DriverStatus.on_ride) (ride_at RideStatus.in_progress) completes_legal config_at
      refl (driver_of RideStatus.in_progress)).0

-- 5 km and 20 minutes: ₹50 + 5 * ₹12 + 20 * ₹1.50.
final_fare_test : final_fare a_config (a_ride RideStatus.in_progress) ≡ 14000
unfolding final_fare calculate_fare surged_fare double add mul round nearest
final_fare_test = refl
