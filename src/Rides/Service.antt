-- ===== src/Rides/Service.antt =====
-- The writes of src/modules/rides/services/rides.service.ts that every operation on a ride goes
-- through: createRide, getRide and transition.

use Prim.Native.String.{String}
use Prim.Native.String.{◌++◌ as append_text}
use mathlib.Core.Option
use obbian_ribe_booking_app.Base.{ℕ, ◌+◌, ◌==◌, ◌&&◌, not, Option, none, some, List, find, ℤ}
use obbian_ribe_booking_app.Platform.{Platform}
use obbian_ribe_booking_app.World.{
  Action, ◌>>=◌, ◌>>◌, pure, throw_if, or_throw, modify, select_one, transaction, ignore_error,
  enqueue, Outcome, Failure, Job,
}
use obbian_ribe_booking_app.Schema.{
  Ride, RideStatus, RideType, PaymentStatus, PaymentMethod, OutboxEvent, OutboxStatus,
  RideEventPayload, same_status, status_name,
}
use obbian_ribe_booking_app.Rides.StateMachine.{allows_transition}

pub record RequestRideInput : Type 0 where
  pub rider_id : ℕ
  pub pickup_lat : ℤ
  pub pickup_lon : ℤ
  pub dropoff_lat : ℤ
  pub dropoff_lon : ℤ
  pub ride_type : RideType
  pub city : String
  pub estimated_fare : ℕ
  pub distance_km : ℕ
  pub duration_min : ℕ
  pub surge_multiplier : ℕ
  pub promo_code : Option (List ℕ)
  pub promo_discount : ℕ

-- The row that createRide inserts, the defaults of the table included.
unfoldable pub new_ride : RequestRideInput → ℕ → ℕ → Ride
new_ride input id now = record {
  id = id;
  rider_id = input.rider_id;
  driver_id = none;
  ride_type = input.ride_type;
  status = RideStatus.requested;
  pickup_lat = input.pickup_lat;
  pickup_lon = input.pickup_lon;
  pickup_address = none;
  dropoff_lat = input.dropoff_lat;
  dropoff_lon = input.dropoff_lon;
  dropoff_address = none;
  city = input.city;
  estimated_fare = input.estimated_fare;
  total_fare = none;
  surge_multiplier = input.surge_multiplier;
  distance_km = input.distance_km;
  duration_min = input.duration_min;
  promo_code = input.promo_code;
  promo_discount = input.promo_discount;
  payment_status = PaymentStatus.pending;
  payment_method = PaymentMethod.upi;
  accepted_at = none;
  arrived_at = none;
  started_at = none;
  completed_at = none;
  cancelled_at = none;
  cancellation_reason = none;
  cancellation_fee = 0;
  rider_rating = none;
  driver_rating = none;
  created_at = now;
  updated_at = now;
}

-- `RIDE_${to}`
unfoldable pub ride_event_type : RideStatus → String
unfolding status_name
ride_event_type to = append_text "RIDE_" (status_name to)

-- The row that OutboxService.write inserts for an event of a ride.
unfoldable pub outbox_row : ℕ → ℕ → String → ℕ → RideEventPayload → OutboxEvent
outbox_row id now event_type aggregate_id payload = record {
  id = id;
  topic = "ride-events";
  event_type = event_type;
  aggregate_type = "ride";
  aggregate_id = aggregate_id;
  payload = payload;
  status = OutboxStatus.pending;
  attempts = 0;
  last_error = none;
  created_at = now;
  updated_at = now;
  published_at = none;
}

-- The payload of the event of a transition.
unfoldable pub transition_payload : Ride → RideEventPayload
transition_payload updated = record {
  ride_id = updated.id;
  rider_id = updated.rider_id;
  driver_id = updated.driver_id;
  status = updated.status;
  ride_type = updated.ride_type;
  total_fare = updated.total_fare;
  cancellation_reason = updated.cancellation_reason;
  cancellation_fee = some updated.cancellation_fee;
}

-- `set({ ...patch, status: to, updatedAt: new Date() })`
unfoldable pub changed_ride : RideStatus → (Ride → Ride) → ℕ → Ride → Ride
changed_ride to patch now r = record (patch r) { status = to; updated_at = now }

module _ ⦃pf : Platform⦄ where
  -- OutboxService.write, of an event of a ride.
  unfoldable pub write_ride_event : String → ℕ → RideEventPayload → Action (Unit {0})
  write_ride_event event_type ride_id payload = modify λ w. record w {
    outbox_events =
        pf.insert (outbox_row w.next_id w.now event_type ride_id payload) w.outbox_events;
    next_id = w.next_id + 1;
  }

  unfoldable pub insert_ride : RequestRideInput → Action Ride
  insert_ride input w =
      let saved = new_ride input w.next_id w.now in
      (Outcome.ok saved, record w { rides = pf.insert saved w.rides; next_id = w.next_id + 1 })

  -- The event of a new ride.
  unfoldable pub write_requested : Ride → Action (Unit {0})
  write_requested saved = write_ride_event "RIDE_REQUESTED" saved.id (record {
    ride_id = saved.id;
    rider_id = saved.rider_id;
    driver_id = none;
    status = saved.status;
    ride_type = saved.ride_type;
    total_fare = none;
    cancellation_reason = none;
    cancellation_fee = none;
  })

  -- A failure to enqueue is only logged.
  unfoldable pub create_ride : RequestRideInput → Action Ride
  create_ride input = do
    ride ← transaction (insert_ride input >>= λ saved. write_requested saved >> pure saved)
    ignore_error (enqueue (Job.match_ride ride.id))
    pure ride

  unfoldable pub get_ride : ℕ → Action Ride
  get_ride ride_id = do
    ride ← select_one (λ w. w.rides) (λ r. r.id == ride_id)
    or_throw ride Failure.not_found

  -- UPDATE rides SET patch, status, updatedAt WHERE id AND status = observed RETURNING *
  unfoldable pub update_ride : ℕ → RideStatus → RideStatus → (Ride → Ride) → Action (Option Ride)
  update_ride ride_id observed to patch w =
      let hit = λ (r : Ride). r.id == ride_id && same_status r.status observed in
      let change = changed_ride to patch w.now in
      (
        Outcome.ok (Option.map change (find hit (pf.rows w.rides))),
        record w { rides = pf.update hit change w.rides },
      )

  -- The transaction of `transition`, once the status has been read and checked.
  unfoldable pub commit_transition :
      ℕ → RideStatus → RideStatus → (Ride → Ride) → String → Action Ride
  commit_transition ride_id observed to patch event_type = transaction (
      update_ride ride_id observed to patch >>= λ row. or_throw row Failure.conflict >>= λ updated.
      write_ride_event event_type updated.id (transition_payload updated) >> pure updated)

  unfoldable pub transition_as : ℕ → RideStatus → (Ride → Ride) → String → Action Ride
  transition_as ride_id to patch event_type = do
    ride ← get_ride ride_id
    throw_if (not (allows_transition ride.status to)) Failure.bad_request
    commit_transition ride_id ride.status to patch event_type

  unfoldable pub transition : ℕ → RideStatus → (Ride → Ride) → Action Ride
  transition ride_id to patch = transition_as ride_id to patch (ride_event_type to)
