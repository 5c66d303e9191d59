-- ===== src/Tests/Poll.antt =====
-- Routes and polls with a provider that knows one route, and sockets.
use obbian_ribe_booking_app.Base.{
  ◌≡◌, refl, true, false, pos, none, some, [], ◌∷◌, find, ◌==◌, arith, to_fixed_by,
}
use obbian_ribe_booking_app.Base.Double.{double, nearest, round}
use obbian_ribe_booking_app.World.{World, ok, wait_until}
use obbian_ribe_booking_app.Schema.{RideStatus}
use obbian_ribe_booking_app.Maps.Api.{RouteInfo, MapsApi, OsrmAnswer, Texts}
use obbian_ribe_booking_app.Maps.Service.{
  MapsConfig, get_route, provider_route, osrm_route, first, route_key,
}
use obbian_ribe_booking_app.Maps.Cache.{get_route-get_route}
use obbian_ribe_booking_app.Tracking.Polling.{EtaTexts, get_eta, get_tracking}
use obbian_ribe_booking_app.Tracking.Polling.Laws.{eta_for, way_of, position_at, get_tracking_lem}
use obbian_ribe_booking_app.Tests.Memory.{memory}
use obbian_ribe_booking_app.Tests.Ride.{one_ride, a_ride}

abbrev a_route : RouteInfo
a_route = record { distance = 5000; duration = 600; polyline = none }

abbrev answer : OsrmAnswer
answer = record { is_ok = true; is_empty = false; code_ok = true; routes = some (a_route ∷ []) }

abbrev api : MapsApi
api = record {
  directions = λ a b c d. none;
  osrm = λ a b c d. some answer;
  autocomplete = λ q. none;
  place_details = λ p. none;
  geocode = λ a b. none;
}

abbrev silent : MapsApi
silent = record api { osrm = λ a b c d. none }

abbrev texts : Texts
texts = record { stringify = λ r. "R"; parse = λ t. some a_route; fixed = λ c. "0" }

abbrev config : MapsConfig
config = record { provider = "osrm"; google_api_key = none }

abbrev accepted : World
accepted = one_ride RideStatus.accepted

found : (provider_route api texts config (pos 0) (pos 0) (pos 7) (pos 7) accepted).0 ≡ ok a_route
unfolding provider_route osrm_route first
found = refl

nearby : route_key (pos 1) (pos 0) (pos 7) (pos 7) ≡ route_key (pos 0) (pos 0) (pos 7) (pos 7)
unfolding route_key to_fixed_by double nearest round
nearby = refl

-- Half a minute less a millisecond later the provider is silent.
get_route-get_route_example :
    let (first_answer, after) =
      get_route api texts config (pos 0) (pos 0) (pos 7) (pos 7) accepted in
    (first_answer ≡ ok a_route)
    × ((get_route silent texts config (pos 1) (pos 0) (pos 7) (pos 7) (wait_until 229999 after)).0
        ≡ ok a_route)
get_route-get_route_example =
    get_route-get_route api silent texts config (pos 0) (pos 0) (pos 7) (pos 7) (pos 1) (pos 0)
      (pos 7) (pos 7) 229999 accepted refl refl found refl refl nearby (omega arith) (omega arith)

abbrev eta_texts : EtaTexts
eta_texts = record { stringify = λ e. "E"; parse = λ t. none }

there : find (λ r. r.id == 10) (a_ride RideStatus.accepted ∷ []) ≡ some (a_ride RideStatus.accepted)
unfolding find
there = refl

get_tracking_lem_example :
    (get_tracking silent texts config eta_texts 10 accepted).0
    ≡ ok (record {
      ride_id = 10;
      status = RideStatus.accepted;
      driver = position_at (some 7) accepted;
      pickup = (pos 0, pos 0);
      dropoff = (pos 0, pos 0);
      route =
          way_of silent texts config eta_texts
            (a_ride RideStatus.accepted)
            (get_eta silent texts config eta_texts (a_ride RideStatus.accepted) accepted).1;
      eta =
          eta_for silent texts config eta_texts
            (a_ride RideStatus.accepted)
            (position_at (some 7) accepted)
            accepted;
    })
get_tracking_lem_example =
    get_tracking_lem silent texts config eta_texts 10 (a_ride RideStatus.accepted) accepted refl
      there refl
