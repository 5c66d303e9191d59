-- ===== src/Tests/Booking.antt =====
-- Requests for rides.
use obbian_ribe_booking_app.Base.{
  ℤ, some, find, inl, ◌∷◌, ◌≡◌, refl, true, ◌||◌, none, [], pos, leb, ltℤ, ◌+ℤ◌, if◌then◌else◌,
}
use obbian_ribe_booking_app.Platform.{counter}
use obbian_ribe_booking_app.World.{World, Action, ok, err, Failure}
use obbian_ribe_booking_app.Schema.{
  RideStatus, RideType, same_ride_type, ScheduledRide, ScheduledStatus,
}
use obbian_ribe_booking_app.Pricing.Quote.{QuoteOption, QuoteResult, RouteInfo}
use obbian_ribe_booking_app.Rides.Fraud.{
  FraudConfig, Finish, guard_ride_request, recent_rides, active_rides, pickup_key,
  guard_ride_request_lem,
}
use obbian_ribe_booking_app.Rides.Request.{RideRequest, book}
use obbian_ribe_booking_app.Rides.Booking.{booked_row, book_lem}
use obbian_ribe_booking_app.Rides.Scheduled.{
  dispatch_scheduled, cancel_scheduled, find_scheduled, scheduled_row,
  cancel_scheduled-dispatch_scheduled,
}
use obbian_ribe_booking_app.Tests.Memory.{memory}
use obbian_ribe_booking_app.Tests.Ride.{one_ride, a_config}
use obbian_ribe_booking_app.Tests.Pricing.{surge}

abbrev limits : FraudConfig
limits = record {
  enabled = true;
  max_rides_per_hour = 5;
  max_concurrent_active = 2;
  duplicate_window_minutes = 10;
  max_duplicate_requests = 3;
}

guard_ride_request_lem_example :
    let w = one_ride RideStatus.matching in
    (guard_ride_request limits Finish.dcv 1 (pos 5) (pos 6) "Delhi" w).0 ≡ (
      if leb 5 (recent_rides limits 1 w)
        || (leb 2 (active_rides limits 1 w)
            || ltℤ (pos 3) (
                counter (memory.get 200000 (pickup_key limits 1 (pos 5) (pos 6) "Delhi") w.redis)
                +ℤ pos 1))
      then err Failure.forbidden
      else ok tt)
guard_ride_request_lem_example =
    guard_ride_request_lem limits Finish.dcv 1 (pos 5) (pos 6) "Delhi"
      (one_ride RideStatus.matching) refl refl

abbrev a_request : RideRequest
a_request = record {
  rider_id = 1;
  pickup_lat = pos 5;
  pickup_lon = pos 6;
  dropoff_lat = pos 7;
  dropoff_lon = pos 8;
  ride_type = RideType.cabx;
  city = none;
  promo_code = none;
}

abbrev an_option : QuoteOption
an_option = record {
  ride_type = RideType.cabx;
  fare = 18200;
  eta_minutes = 18;
  surge_multiplier = 130;
  base_fare = 5000;
}

abbrev a_quote : QuoteResult
a_quote = record {
  options = an_option ∷ [];
  route = record { metres = 5000; seconds = 1200 };
  city = "Delhi";
  surge_multiplier = 130;
}

shown : find (λ o. same_ride_type o.ride_type RideType.cabx) a_quote.options ≡ some an_option
unfolding find same_ride_type
shown = refl

book_lem_example :
    let ride = booked_row a_request "Delhi" a_quote 18200 0 100 200000 in
    (book surge a_request "Delhi" a_config a_quote (one_ride RideStatus.completed)).0
    ≡ ok (record {
      ride = ride;
      surge_multiplier = 130;
      promo_discount = 0;
      estimated_seconds = 1200;
    })
book_lem_example =
    (book_lem surge a_request "Delhi" a_config a_quote 18200 0 (one_ride RideStatus.completed)
      (one_ride RideStatus.completed) (inl (an_option, shown, refl)) (refl, refl)).0

abbrev tomorrow : ScheduledRide
tomorrow = record {
  id = 40;
  rider_id = 1;
  ride_id = none;
  pickup_lat = pos 5;
  pickup_lon = pos 6;
  dropoff_lat = pos 7;
  dropoff_lon = pos 8;
  ride_type = RideType.cabx;
  city = "Delhi";
  scheduled_for = 86400000;
  status = ScheduledStatus.pending;
  created_at = 0;
  updated_at = 0;
}

abbrev planned : World
planned = record (one_ride RideStatus.completed) { scheduled_rides = tomorrow ∷ [] }

tomorrow_at : scheduled_row planned 40 ≡ some tomorrow
unfolding find
tomorrow_at = refl

called_off : (cancel_scheduled 1 40 planned).0 ≡ ok tt
unfolding cancel_scheduled find_scheduled find
called_off = refl

abbrev a_route : ℤ → ℤ → ℤ → ℤ → Action RouteInfo
a_route a b c d w = (ok (record { metres = 5000; seconds = 1200 }), w)

cancel_scheduled-dispatch_scheduled_example :
    let w' = (cancel_scheduled 1 40 planned).1 in
    dispatch_scheduled surge a_route 40 w' ≡ (ok none, w')
cancel_scheduled-dispatch_scheduled_example =
    cancel_scheduled-dispatch_scheduled surge a_route 1 40 planned tomorrow_at called_off
