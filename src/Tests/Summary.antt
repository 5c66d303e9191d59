-- ===== src/Tests/Summary.antt =====
-- The analytics of a window with one completed ride.
use obbian_ribe_booking_app.Base.{
  ◌≡◌, ◌≤◌, refl, List, [], ◌∷◌, length, map, take, select, pos, to_fixed_by, arith,
}
use obbian_ribe_booking_app.Base.Double.{double, nearest, round}
use obbian_ribe_booking_app.Base.Dict.{lookup, insert}
use obbian_ribe_booking_app.World.{World, ok}
use obbian_ribe_booking_app.Schema.{Ride, RideStatus}
use obbian_ribe_booking_app.Analytics.Service.{
  AnalyticsSummary, rides_since, window_start, Route, summary, top_routes, count_routes, by_count,
  route_of, same_route,
}
use obbian_ribe_booking_app.Analytics.Totals.{AccountsFor, summary_lem}
use obbian_ribe_booking_app.Analytics.Routes.{IsDescending, IsRanked, trips, top_routes_lem}
use obbian_ribe_booking_app.Tests.Memory.{memory}
use obbian_ribe_booking_app.Tests.Ride.{one_ride, a_ride}

abbrev busy : World
busy = one_ride RideStatus.completed

seen : length (rides_since (window_start 30 busy) busy) ≡ 1
unfolding rides_since window_start select
seen = refl

summary_lem_example :
    (s : AnalyticsSummary) × (summary 30 busy ≡ (ok s, busy))
    × AccountsFor (rides_since (window_start 30 busy) busy) s
summary_lem_example = summary_lem 30 busy (omega (arith, seen))

abbrev elsewhere : Ride
elsewhere = record (a_ride RideStatus.completed) { id = 11; pickup_lat = pos 700 }

abbrev three : List Ride
three = elsewhere ∷ a_ride RideStatus.completed ∷ a_ride RideStatus.completed ∷ []

-- The route with two trips comes first.
top_routes_test : map (λ e. e.1) (top_routes three) ≡ 2 ∷ 1 ∷ []
unfolding top_routes count_routes by_count take lookup insert route_of same_route to_fixed_by double
    nearest round
top_routes_test = refl

top_routes_lem_example :
    (length (top_routes three) ≤ 10)
    × IsDescending (top_routes three)
    × ((k : Route) → IsRanked (top_routes three) (trips k three) k)
top_routes_lem_example = top_routes_lem three
