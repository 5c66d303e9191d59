-- ===== src/Rides/Scheduled.antt =====
-- src/modules/rides/services/scheduled-rides.service.ts. What other requests do between the reads of a dispatch and its last write is left
-- out.
use Prim.Native.String.{String}
use mathlib.Core.Option
use obbian_ribe_booking_app.Base.{
  ap, ℕ, ◌+◌, ◌*◌, ◌-◌, ◌/◌, ◌≡◌, refl, ◌==◌, Bool, true, false, not, Option, none, some, List, [],
  ◌∷◌, ltb, leb, if◌then◌else◌, find, select, find-map_where, find-satisfies, ℤ, arith,
}
use obbian_ribe_booking_app.Platform.{Platform}
use obbian_ribe_booking_app.World.{
  World, Action, ◌>>=◌, ◌>>◌, pure, throw_if, or_throw, gets, modify, select_one, enqueue,
  ignore_error, Outcome, ok, Failure, Job,
}
use obbian_ribe_booking_app.Schema.{
  Ride, RideType, RideStatus, ScheduledRide, ScheduledStatus, FareConfig,
}
use obbian_ribe_booking_app.Pricing.Fare.{get_config, calculate_fare}
use obbian_ribe_booking_app.Pricing.Surge.{SurgeConfig}
use obbian_ribe_booking_app.Pricing.Quote.{RouteInfo, QuoteResult, get_quote}
use obbian_ribe_booking_app.Rides.Service.{RequestRideInput, create_ride}
use obbian_ribe_booking_app.Rides.Lists.{get_active_rides_for_rider}

pub record ScheduleRideInput : Type 0 where
  pub rider_id : ℕ
  pub pickup_lat : ℤ
  pub pickup_lon : ℤ
  pub dropoff_lat : ℤ
  pub dropoff_lon : ℤ
  pub ride_type : RideType
  pub city : String
  pub scheduled_for : ℕ

unfoldable pub new_scheduled : ScheduleRideInput → ℕ → ℕ → ScheduledRide
new_scheduled input id now = record {
  id = id;
  rider_id = input.rider_id;
  ride_id = none;
  pickup_lat = input.pickup_lat;
  pickup_lon = input.pickup_lon;
  dropoff_lat = input.dropoff_lat;
  dropoff_lon = input.dropoff_lon;
  ride_type = input.ride_type;
  city = input.city;
  scheduled_for = input.scheduled_for;
  status = ScheduledStatus.pending;
  created_at = now;
  updated_at = now;
}

abbrev pub is_pending : ScheduledStatus → Bool
is_pending ScheduledStatus.pending = true
is_pending _ = false

-- The input of createRide: the fare of the config, without the surge of the quote, and no promo.
unfoldable pub scheduled_input : ScheduledRide → FareConfig → QuoteResult → RequestRideInput
scheduled_input s config quote = record {
  rider_id = s.rider_id;
  pickup_lat = s.pickup_lat;
  pickup_lon = s.pickup_lon;
  dropoff_lat = s.dropoff_lat;
  dropoff_lon = s.dropoff_lon;
  ride_type = s.ride_type;
  city = s.city;
  estimated_fare = calculate_fare config quote.route.metres quote.route.seconds;
  distance_km = (quote.route.metres + 5) / 10;
  duration_min = (quote.route.seconds + 30) / 60;
  surge_multiplier = quote.surge_multiplier;
  promo_code = none;
  promo_discount = 0;
}

-- The job has the id `scheduled-…` of the scheduled ride.
abbrev is_dispatch_of : ℕ → Job → Bool
is_dispatch_of id (Job.dispatch_scheduled j delay) = j == id
is_dispatch_of id _ = false

abbrev is_empty : List Ride → Bool
is_empty [] = true
is_empty (x ∷ xs) = false

module _ ⦃pf : Platform⦄ where
  unfoldable pub find_scheduled : ℕ → Action (Option ScheduledRide)
  find_scheduled id = select_one (λ w. w.scheduled_rides) (λ s. s.id == id)

  abbrev pub update_scheduled : ℕ → (World → ScheduledRide → ScheduledRide) → Action (Unit {0})
  update_scheduled id f =
      modify
        (λ w. record w { scheduled_rides = pf.update (λ s. s.id == id) (f w) w.scheduled_rides })

  unfoldable pub insert_scheduled : ScheduleRideInput → Action ScheduledRide
  insert_scheduled input w =
      let s = new_scheduled input w.next_id w.now in
      (
        Outcome.ok s,
        record w { scheduled_rides = pf.insert s w.scheduled_rides; next_id = w.next_id + 1 },
      )

  unfoldable pub schedule : ℕ → ScheduleRideInput → Action ScheduledRide
  schedule max_hours_ahead input = gets (λ w. w.now) >>= λ now.
      throw_if (leb input.scheduled_for (now + 5 * 60 * 1000)) Failure.bad_request
      >> throw_if (ltb (now + max_hours_ahead * 60 * 60 * 1000) input.scheduled_for)
          Failure.bad_request
      >> insert_scheduled input
      >>= λ scheduled.
          enqueue (Job.dispatch_scheduled scheduled.id (input.scheduled_for - now))
          >> pure scheduled

  unfoldable pub mark_cancelled : ℕ → ScheduledRide → ScheduledRide
  mark_cancelled now s = record s { status = ScheduledStatus.cancelled; updated_at = now }

  unfoldable pub mark_dispatched : ℕ → ℕ → ScheduledRide → ScheduledRide
  mark_dispatched ride_id now s = record s {
    status = ScheduledStatus.dispatched;
    ride_id = some ride_id;
    updated_at = now;
  }

  abbrev owned_by : ℕ → Option ScheduledRide → Option ScheduledRide
  owned_by rider_id none = none
  owned_by rider_id (some s) = if s.rider_id == rider_id then some s else none

  -- `queue.remove`, which throws when the queue cannot be reached.
  unfoldable pub remove_job : ℕ → Action (Unit {0})
  remove_job id w =
      if w.queue_up
      then (ok tt, record w { jobs = select (λ j. not (is_dispatch_of id j)) w.jobs })
      else (Outcome.err Failure.internal, w)

  unfoldable pub cancel_scheduled : ℕ → ℕ → Action (Unit {0})
  cancel_scheduled rider_id id = find_scheduled id >>= λ found.
      or_throw (owned_by rider_id found) Failure.not_found >>= λ scheduled.
      throw_if (not (is_pending scheduled.status)) Failure.bad_request
      >> update_scheduled id (λ w. mark_cancelled w.now)
      >> ignore_error (remove_job id)

module _ ⦃pf : Platform⦄ (surge : SurgeConfig) (get_route : ℤ → ℤ → ℤ → ℤ → Action RouteInfo) where
  -- The ride of a schedule that is due, for a rider who has no active ride.
  unfoldable pub materialise : ScheduledRide → Action (Option Ride)
  materialise s =
      get_quote surge get_route s.pickup_lat s.pickup_lon s.dropoff_lat s.dropoff_lon s.city
        (s.ride_type ∷ [])
      >>= λ quote. get_config s.city s.ride_type >>= λ config.
          create_ride (scheduled_input s config quote) >>= λ ride.
          update_scheduled s.id (λ w. mark_dispatched ride.id w.now) >> pure (some ride)

  abbrev dispatch_pending : ScheduledRide → List Ride → Action (Option Ride)
  dispatch_pending s active =
      if is_empty active
      then materialise s
      else (update_scheduled s.id (λ w. mark_cancelled w.now) >> pure none)

  abbrev dispatch_found : Option ScheduledRide → Action (Option Ride)
  dispatch_found none = pure none
  dispatch_found (some s) =
      if is_pending s.status
      then (get_active_rides_for_rider s.rider_id >>= λ active. dispatch_pending s active)
      else pure none

  unfoldable pub dispatch_scheduled : ℕ → Action (Option Ride)
  dispatch_scheduled id = find_scheduled id >>= λ found. dispatch_found found

  -- The worker in src/modules/rides/workers: the ride and its status, or none if it is skipped.
  unfoldable pub process_scheduled : ℕ → Action (Option (ℕ × RideStatus))
  process_scheduled id =
      dispatch_scheduled id >>= λ ride. pure (Option.map (λ r. (r.id, r.status)) ride)

module _ ⦃pf : Platform⦄ where
  abbrev pub scheduled_row : World → ℕ → Option ScheduledRide
  scheduled_row w id = find (λ s. s.id == id) (pf.rows w.scheduled_rides)

  dispatch_scheduled-over :
      (surge : SurgeConfig) (get_route : ℤ → ℤ → ℤ → ℤ → Action RouteInfo) (id : ℕ) (w : World)
      {s : ScheduledRide}
      → scheduled_row w id ≡ some s
      → is_pending s.status ≡ false
      → dispatch_scheduled surge get_route id w ≡ (ok none, w)
  unfolding dispatch_scheduled find_scheduled
  dispatch_scheduled-over surge get_route id w e over = rw (e, over) refl

  cancel_scheduled-update :
      (rider_id id : ℕ) (w : World)
      → (cancel_scheduled rider_id id w).0 ≡ ok tt
      → (cancel_scheduled rider_id id w).1.scheduled_rides
        ≡ pf.update (λ s. s.id == id) (mark_cancelled w.now) w.scheduled_rides
  unfolding cancel_scheduled find_scheduled remove_job
  cancel_scheduled-update rider_id id w done = ground arith

  mark_cancelled-id : (now : ℕ) (s : ScheduledRide) → (mark_cancelled now s).id ≡ s.id
  unfolding mark_cancelled
  mark_cancelled-id now s = refl

  cancel_scheduled-row :
      (rider_id id : ℕ) (w : World) {s : ScheduledRide}
      → scheduled_row w id ≡ some s
      → (cancel_scheduled rider_id id w).0 ≡ ok tt
      → scheduled_row (cancel_scheduled rider_id id w).1 id ≡ some (mark_cancelled w.now s)
  cancel_scheduled-row rider_id id w e done = rw (
    cancel_scheduled-update rider_id id w done,
    pf.rows-update (λ s. s.id == id) (mark_cancelled w.now) w.scheduled_rides,
    find-map_where (λ s. s.id == id) (λ s. s.id == id) (mark_cancelled w.now)
        (pf.rows w.scheduled_rides) (λ s. ap (λ i. i == id) (mark_cancelled-id w.now s)),
    e,
    find-satisfies (λ s. s.id == id) (pf.rows w.scheduled_rides) e,
  )

  -- A scheduled ride that its rider has cancelled is not dispatched: when its job fires right
  -- afterwards, nothing happens.
  pub cancel_scheduled-dispatch_scheduled :
      (surge : SurgeConfig) (get_route : ℤ → ℤ → ℤ → ℤ → Action RouteInfo) (rider_id id : ℕ)
      (w : World) {s : ScheduledRide}
      → scheduled_row w id ≡ some s
      → (cancel_scheduled rider_id id w).0 ≡ ok tt
      → let w' = (cancel_scheduled rider_id id w).1 in
        dispatch_scheduled surge get_route id w' ≡ (ok none, w')
  unfolding mark_cancelled
  cancel_scheduled-dispatch_scheduled surge get_route rider_id id w e done =
      dispatch_scheduled-over surge get_route id _ (cancel_scheduled-row rider_id id w e done) refl
