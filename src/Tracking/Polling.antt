-- ===== src/Tracking/Polling.antt =====
-- src/modules/tracking/services/tracking.service.ts: what a rider gets who polls a ride in place of listening to
-- its room. The JSON text of an ETA is a parameter.
pub mod Laws
use Prim.Native.String.{String}
use obbian_ribe_booking_app.Base.{
  ℕ, ◌+◌, ◌*◌, ◌/◌, ◌==◌, max, Bool, true, false, ◌||◌, Option, none, some, if◌then◌else◌, ℤ,
}
use obbian_ribe_booking_app.Platform.{Platform, Position, TextKey}
use obbian_ribe_booking_app.World.{
  World, Action, ◌>>=◌, ◌>>◌, pure, or_throw, select_one, redis_call, recover, Failure,
}
use obbian_ribe_booking_app.Schema.{Ride, RideStatus, same_status}
use obbian_ribe_booking_app.Maps.Api.{RouteInfo, MapsApi, Texts}
use obbian_ribe_booking_app.Maps.Service.{
  MapsConfig, get_route, read_text, keep_text, present, or_else,
}

-- The distance is in metres.
pub record Eta : Type 0 where
  pub eta_minutes : ℕ
  pub distance : ℕ

pub record EtaTexts : Type 0 where
  pub stringify : Eta → String
  pub parse : String → Option Eta

pub record TrackingView : Type 0 where
  pub ride_id : ℕ
  pub status : RideStatus
  pub driver : Option Position
  pub pickup : ℤ × ℤ
  pub dropoff : ℤ × ℤ
  pub route : Option RouteInfo
  pub eta : Eta

abbrev pub eta_ttl : ℕ
eta_ttl = 30

-- What the ride was estimated to take.
unfoldable pub estimate_of : Ride → Eta
estimate_of ride = record { eta_minutes = ride.duration_min; distance = 10 * ride.distance_km }

-- The minutes of a route, rounded, and at least one.
unfoldable pub eta_of : Ride → Option RouteInfo → Eta
eta_of ride none = estimate_of ride
eta_of ride (some r) = record {
  eta_minutes = max 1 ((r.duration + 30) / 60);
  distance = r.distance;
}

-- Where the driver is going.
unfoldable pub destination : Ride → ℤ × ℤ
destination ride =
    if same_status ride.status RideStatus.in_progress
    then (ride.dropoff_lat, ride.dropoff_lon)
    else (ride.pickup_lat, ride.pickup_lon)

-- Whether the route of the ride is shown.
unfoldable pub shows_route : RideStatus → Bool
shows_route s =
    same_status s RideStatus.in_progress
    || (same_status s RideStatus.accepted || same_status s RideStatus.arrived)

unfoldable pub view_of : Ride → Option Position → Eta → Option RouteInfo → TrackingView
view_of ride at eta route = record {
  ride_id = ride.id;
  status = ride.status;
  driver = at;
  pickup = (ride.pickup_lat, ride.pickup_lon);
  dropoff = (ride.dropoff_lat, ride.dropoff_lon);
  route = route;
  eta = eta;
}

module _ ⦃pf : Platform⦄ (api : MapsApi) (texts : Texts) (config : MapsConfig)
    (eta_texts : EtaTexts) where
  unfoldable pub get_driver_position : Option ℕ → Action (Option Position)
  get_driver_position none = pure none
  get_driver_position (some driver_id) = redis_call (λ now s. (pf.get_position now driver_id s, s))

  -- `getRoute(…).catch(() => null)`
  unfoldable pub route_or_null : ℤ → ℤ → ℤ → ℤ → Action (Option RouteInfo)
  route_or_null p_lat p_lon d_lat d_lon =
      recover (get_route api texts config p_lat p_lon d_lat d_lon >>= λ r. pure (some r)) none

  -- The ETA from the position of the driver, which is kept.
  unfoldable pub eta_from : Ride → Position → Action Eta
  eta_from ride p = do
    found ← route_or_null p.lat p.lon (destination ride).0 (destination ride).1
    keep_text (TextKey.eta ride.id) (eta_texts.stringify (eta_of ride found)) eta_ttl
    pure (eta_of ride found)

  abbrev pub eta_at : Ride → Option Position → Action Eta
  eta_at ride none = pure (estimate_of ride)
  eta_at ride (some p) = eta_from ride p

  unfoldable pub compute_eta : Ride → Action Eta
  compute_eta ride = get_driver_position ride.driver_id >>= λ at. eta_at ride at

  unfoldable pub get_eta : Ride → Action Eta
  get_eta ride = read_text (TextKey.eta ride.id) >>= λ cached.
      or_else (present cached) (λ text. or_throw (eta_texts.parse text) Failure.internal)
        (compute_eta ride)

  unfoldable pub ride_route : Ride → Action (Option RouteInfo)
  ride_route ride =
      if shows_route ride.status
      then route_or_null ride.pickup_lat ride.pickup_lon ride.dropoff_lat ride.dropoff_lon
      else pure none

  unfoldable pub get_tracking : ℕ → Action TrackingView
  get_tracking ride_id = do
    row ← select_one (λ w. w.rides) (λ r. r.id == ride_id)
    ride ← or_throw row Failure.not_found
    at ← get_driver_position ride.driver_id
    eta ← get_eta ride
    route ← ride_route ride
    pure (view_of ride at eta route)
