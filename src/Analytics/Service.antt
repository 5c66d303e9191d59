-- ===== src/Analytics/Service.antt =====
-- src/modules/analytics/services/analytics.service.ts: the aggregates over the rides of a window. Days are
-- numbered from the epoch, and rates and averages are rounded from the exact quotient, halves upwards.

use obbian_ribe_booking_app.Base.{
  ℕ, ◌+◌, ◌-◌, ◌*◌, ◌/◌, ◌==◌, Bool, ◌&&◌, Option, none, some, List, [], ◌∷◌, ltb, leb,
  if◌then◌else◌, length, select, take, map, sum_by, ℤ, to_fixed_by, same_int,
}
use obbian_ribe_booking_app.Base.Dict.{lookup, insert}
use obbian_ribe_booking_app.Platform.{Platform}
use obbian_ribe_booking_app.World.{World, Action, ◌>>=◌, ◌>>◌, gets, throw_if, Failure}
use obbian_ribe_booking_app.Schema.{Ride, RideStatus, DriverStatus, same_status, same_driver_status}
use obbian_ribe_booking_app.Ratings.Service.{given, scaled_average}

-- How many rides a day has, and the fares of the completed ones.
pub record DayEntry : Type 0 where
  pub count : ℕ
  pub gmv : ℕ

-- The text of a route: its four coordinates, with three digits each.
pub record Route : Type 0 where
  pub pickup_lat : ℤ
  pub pickup_lon : ℤ
  pub dropoff_lat : ℤ
  pub dropoff_lon : ℤ

-- The rate is in tenths of a percent, amounts in paise, and ratings in hundredths.
pub record Totals : Type 0 where
  pub rides_requested : ℕ
  pub rides_completed : ℕ
  pub rides_cancelled : ℕ
  pub cancellation_rate : ℕ
  pub gmv : ℕ
  pub avg_fare : ℕ
  pub avg_rider_rating : ℕ
  pub avg_driver_rating : ℕ

pub record AnalyticsSummary : Type 0 where
  pub from : ℕ
  pub to : ℕ
  pub totals : Totals
  pub rides_by_status : List (RideStatus × ℕ)
  pub rides_per_day : List (ℕ × DayEntry)
  pub top_routes : List (Route × ℕ)
  pub online_now : ℕ
  pub total_drivers : ℕ

unfoldable pub with_status : RideStatus → List Ride → List Ride
with_status s rides = select (λ r. same_status r.status s) rides

-- totalFare ?? estimatedFare
unfoldable pub fare_of : Ride → ℕ
fare_of r = elim r.total_fare [ none ↦ r.estimated_fare | some fare ↦ fare ]

-- a / b, rounded, and 0 if b is 0
unfoldable pub rounded_ratio : ℕ → ℕ → ℕ
rounded_ratio a b = if b == 0 then 0 else (2 * a + b) / (2 * b)

abbrev pub day_of : Ride → ℕ
day_of r = r.created_at / 86_400_000

abbrev entry_or_zero : Option DayEntry → DayEntry
entry_or_zero none = record { count = 0; gmv = 0 }
entry_or_zero (some e) = e

unfoldable pub count_ride : Ride → Option DayEntry → DayEntry
count_ride r entry = record {
  count = (entry_or_zero entry).count + 1;
  gmv =
      if same_status r.status RideStatus.completed
      then (entry_or_zero entry).gmv + fare_of r
      else (entry_or_zero entry).gmv;
}

abbrev pub same_day : ℕ → ℕ → Bool
same_day a b = a == b

-- `for (const r of rides) { … perDay.set(key, entry); }`
unfoldable pub count_days : List (ℕ × DayEntry) → List Ride → List (ℕ × DayEntry)
count_days per_day [] = per_day
count_days per_day (r ∷ rides) =
    count_days
      (insert same_day (day_of r) (count_ride r (lookup same_day (day_of r) per_day)) per_day) rides

abbrev pub insert_day : ℕ × DayEntry → List (ℕ × DayEntry) → List (ℕ × DayEntry)
insert_day d [] = d ∷ []
insert_day d (e ∷ es) = let rest = insert_day d es in if ltb e.0 d.0 then e ∷ rest else d ∷ e ∷ es

-- sort((a, b) => a.date.localeCompare(b.date))
unfoldable pub by_date : List (ℕ × DayEntry) → List (ℕ × DayEntry)
by_date [] = []
by_date (d ∷ ds) = insert_day d (by_date ds)

unfoldable pub per_day : List Ride → List (ℕ × DayEntry)
per_day rides = by_date (count_days [] rides)

unfoldable pub route_of : Ride → Route
route_of r = record {
  pickup_lat = to_fixed_by 1000 r.pickup_lat;
  pickup_lon = to_fixed_by 1000 r.pickup_lon;
  dropoff_lat = to_fixed_by 1000 r.dropoff_lat;
  dropoff_lon = to_fixed_by 1000 r.dropoff_lon;
}

unfoldable pub same_route : Route → Route → Bool
same_route a b =
    same_int a.pickup_lat b.pickup_lat
    && (same_int a.pickup_lon b.pickup_lon
        && (same_int a.dropoff_lat b.dropoff_lat && same_int a.dropoff_lon b.dropoff_lon))

abbrev pub or_zero : Option ℕ → ℕ
or_zero none = 0
or_zero (some n) = n

-- `for (const r of completed) { routeCounts.set(key, (routeCounts.get(key) ?? 0) + 1); }`
unfoldable pub count_routes : List (Route × ℕ) → List Ride → List (Route × ℕ)
count_routes counts [] = counts
count_routes counts (r ∷ rides) =
    count_routes
      (insert same_route (route_of r) (or_zero (lookup same_route (route_of r) counts) + 1) counts)
      rides

abbrev pub insert_route : Route × ℕ → List (Route × ℕ) → List (Route × ℕ)
insert_route d [] = d ∷ []
insert_route d (e ∷ es) =
    let rest = insert_route d es in if ltb d.1 e.1 then e ∷ rest else d ∷ e ∷ es

-- sort((a, b) => b.count - a.count)
unfoldable pub by_count : List (Route × ℕ) → List (Route × ℕ)
by_count [] = []
by_count (d ∷ ds) = insert_route d (by_count ds)

-- slice(0, 10)
unfoldable pub top_routes : List Ride → List (Route × ℕ)
top_routes completed = take 10 (by_count (count_routes [] completed))

abbrev pub statuses : List RideStatus
statuses =
    RideStatus.requested ∷ RideStatus.matching ∷ RideStatus.accepted ∷ RideStatus.arrived
    ∷ RideStatus.in_progress ∷ RideStatus.completed ∷ RideStatus.cancelled ∷ []

unfoldable pub by_status : List Ride → List (RideStatus × ℕ)
by_status rides = map (λ s. (s, length (with_status s rides))) statuses

unfoldable pub totals_of : List Ride → Totals
totals_of rides =
    let completed = with_status RideStatus.completed rides in
    let cancelled = with_status RideStatus.cancelled rides in
    let gmv = sum_by fare_of completed in
    record {
      rides_requested = length rides;
      rides_completed = length completed;
      rides_cancelled = length cancelled;
      cancellation_rate = rounded_ratio (1000 * length cancelled) (length rides);
      gmv = gmv;
      avg_fare = rounded_ratio gmv (length completed);
      avg_rider_rating = scaled_average 100 (given (map (λ r. r.rider_rating) completed));
      avg_driver_rating = scaled_average 100 (given (map (λ r. r.driver_rating) completed));
    }

module _ ⦃pf : Platform⦄ where
  unfoldable pub window_start : ℕ → World → ℕ
  window_start days w = w.now - days * 86_400_000

  unfoldable pub rides_since : ℕ → World → List Ride
  rides_since from w = select (λ r. leb from r.created_at) (pf.rows w.rides)

  unfoldable pub summary_of : ℕ → List Ride → World → AnalyticsSummary
  summary_of from rides w = record {
    from = from;
    to = w.now;
    totals = totals_of rides;
    rides_by_status = by_status rides;
    rides_per_day = per_day rides;
    top_routes = top_routes (with_status RideStatus.completed rides);
    online_now =
        length (select (λ d. same_driver_status d.status DriverStatus.online) (pf.rows w.drivers));
    total_drivers = length (pf.rows w.drivers);
  }

  unfoldable pub summary : ℕ → Action AnalyticsSummary
  summary days = do
    from ← gets (window_start days)
    rides ← gets (rides_since from)
    throw_if (length rides == 0) Failure.not_found
    gets (summary_of from rides)
