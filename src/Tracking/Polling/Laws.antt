-- ===== src/Tracking/Polling/Laws.antt =====
-- What a poll of a ride answers (src/modules/tracking/services/tracking.service.ts).
use text.Mathlib.Text.{◌==◌ as same_text}
use obbian_ribe_booking_app.Base.{
  ℕ, ◌+◌, ◌*◌, ◌/◌, max, sym, if◌then◌else◌, ◌≤◌, ◌<◌, ◌≡◌, refl, ap, ◌∙◌, ◌==◌, true, false,
  Option, none, some, find, ℤ, arith,
}
use obbian_ribe_booking_app.Platform.{Platform, Position, TextKey}
use obbian_ribe_booking_app.World.{
  World, Action, ◌>>=◌, pure, or_throw, Outcome, ok, err, Failure, wait_until, resume, recover,
}
use obbian_ribe_booking_app.World.Inversion.{then_rest}
use obbian_ribe_booking_app.Schema.{Ride, RideStatus, same_status}
use obbian_ribe_booking_app.Maps.Api.{RouteInfo, MapsApi, Texts}
use obbian_ribe_booking_app.Maps.Service.{
  MapsConfig, get_route, read_text, keep_text, present, or_else,
}
use obbian_ribe_booking_app.Maps.Cache.{
  get_route_up, kept, keep_text_up, read_text_up, read_text-kept,
}
use obbian_ribe_booking_app.Tracking.Polling.{
  Eta, EtaTexts, eta_ttl, estimate_of, eta_of, destination, shows_route, get_driver_position,
  route_or_null, eta_from, eta_at, compute_eta, get_eta, ride_route, view_of, get_tracking,
}

-- What `.catch(() => null)` makes of an answer.
abbrev pub answered : Outcome RouteInfo → Option RouteInfo
answered (ok r) = some r
answered (err e) = none

-- What the ride was estimated to take, and what a route takes.
abbrev pub eta_with : Ride → Option RouteInfo → Eta
eta_with ride none = record { eta_minutes = ride.duration_min; distance = 10 * ride.distance_km }
eta_with ride (some r) = record {
  eta_minutes = max 1 ((r.duration + 30) / 60);
  distance = r.distance;
}

eta_of-eta_with : (ride : Ride) (o : Option RouteInfo) → eta_of ride o ≡ eta_with ride o
unfolding eta_of estimate_of
eta_of-eta_with ride none = refl
eta_of-eta_with ride (some r) = refl

-- The driver of a ride that is in progress goes to its dropoff, any other to its pickup.
abbrev pub goal_of : RideStatus → Ride → ℤ × ℤ
goal_of RideStatus.in_progress ride = (ride.dropoff_lat, ride.dropoff_lon)
goal_of _ ride = (ride.pickup_lat, ride.pickup_lon)

destination-goal_of : (ride : Ride) → destination ride ≡ goal_of ride.status ride
unfolding destination same_status
destination-goal_of ride = ground arith

-- The statuses in which a ride is shown with its route.
abbrev pub on_its_way : {A : Type 0} → RideStatus → Option A → Option A
on_its_way RideStatus.accepted o = o
on_its_way RideStatus.arrived o = o
on_its_way RideStatus.in_progress o = o
on_its_way _ o = none

module _ ⦃pf : Platform⦄ where
  -- The position that Redis has of the driver of a ride.
  abbrev pub position_at : Option ℕ → World → Option Position
  position_at none w = none
  position_at (some driver_id) w = pf.get_position w.now driver_id w.redis

  or_null :
      (o : Outcome RouteInfo) (v w : World)
      → recover (λ _. resume o (λ r. pure (some r)) v) none w ≡ (ok (answered o), v)
  or_null (ok r) v w = refl
  or_null (err e) v w = refl

module _ ⦃pf : Platform⦄ (api : MapsApi) (texts : Texts) (config : MapsConfig)
    (eta_texts : EtaTexts) where
  get_driver_position_up :
      (driver_id : Option ℕ) (w : World)
      → w.redis_up ≡ true
      → get_driver_position api texts config eta_texts driver_id w
        ≡ (ok (position_at driver_id w), w)
  unfolding get_driver_position
  get_driver_position_up none w up = refl
  get_driver_position_up (some driver_id) w up = ground arith

  -- Whatever the provider does, there is an answer, and Redis is still up.
  route_or_null_up :
      (p_lat p_lon d_lat d_lon : ℤ) (w : World)
      → w.redis_up ≡ true
      → let asked = get_route api texts config p_lat p_lon d_lat d_lon w in
        (route_or_null api texts config eta_texts p_lat p_lon d_lat d_lon w
          ≡ (ok (answered asked.0), asked.1))
        × (asked.1.redis_up ≡ true)
        × (asked.1.now ≡ w.now)
  unfolding route_or_null
  route_or_null_up p_lat p_lon d_lat d_lon w up =
      let asked = get_route api texts config p_lat p_lon d_lat d_lon w in
      let (still, same) = get_route_up api texts config p_lat p_lon d_lat d_lon w up in
      (or_null asked.0 asked.1 w, still, same)

  -- What the maps answer about the way from a position to where the driver is going.
  abbrev pub way_from : Ride → Position → World → Option RouteInfo
  way_from ride p w =
      let goal = goal_of ride.status ride in
      answered (get_route api texts config p.lat p.lon goal.0 goal.1 w).0

  eta_from_up :
      (ride : Ride) (p : Position) (w : World)
      → w.redis_up ≡ true
      → let eta = eta_with ride (way_from ride p w) in
        (v : World) × (eta_from api texts config eta_texts ride p w
          ≡ (ok eta, kept (TextKey.eta ride.id) (eta_texts.stringify eta) eta_ttl v))
        × (v.redis_up ≡ true)
        × (v.now ≡ w.now)
  unfolding eta_from
  eta_from_up ride p w up = rw (destination-goal_of ride) (
      let goal = goal_of ride.status ride in
      let asked = get_route api texts config p.lat p.lon goal.0 goal.1 w in
      let (e, still, same) = route_or_null_up p.lat p.lon goal.0 goal.1 w up in
      let eta = eta_of ride (answered asked.0) in
      (
        asked.1,
        then_rest (route_or_null api texts config eta_texts p.lat p.lon goal.0 goal.1) _ e
            ∙ then_rest (keep_text (TextKey.eta ride.id) (eta_texts.stringify eta) eta_ttl) _
                (keep_text_up _ _ eta_ttl asked.1 still)
            ∙ ap (λ t. (ok t, kept (TextKey.eta ride.id) (eta_texts.stringify t) eta_ttl asked.1))
                (eta_of-eta_with ride (answered asked.0)),
        still,
        same,
      ))

  -- Where no ETA is kept, it is computed from the position.
  get_eta_free :
      (ride : Ride) (at : Option Position) (w : World)
      → w.redis_up ≡ true
      → present (pf.get_text w.now (TextKey.eta ride.id) w.redis) ≡ none
      → position_at ride.driver_id w ≡ at
      → get_eta api texts config eta_texts ride w ≡ eta_at api texts config eta_texts ride at w
  unfolding get_eta compute_eta
  get_eta_free ride at w up free there =
      then_rest (read_text (TextKey.eta ride.id)) _ (read_text_up (TextKey.eta ride.id) w up)
      ∙ ap
          (λ o.
            or_else o (λ text. or_throw (eta_texts.parse text) Failure.internal)
              (compute_eta api texts config eta_texts ride) w)
          free
      ∙ then_rest (get_driver_position api texts config eta_texts ride.driver_id) _
          (get_driver_position_up ride.driver_id w up)
      ∙ ap (λ o. eta_at api texts config eta_texts ride o w) there

  -- The ETA of a ride whose driver is at a position, if there is one.
  abbrev pub eta_for : Ride → Option Position → World → Eta
  eta_for ride none w = eta_with ride none
  eta_for ride (some p) w = eta_with ride (way_from ride p w)

  eta_at_up :
      (ride : Ride) (at : Option Position) (w : World)
      → w.redis_up ≡ true
      → (v : World) × (eta_at api texts config eta_texts ride at w ≡ (ok (eta_for ride at w), v))
        × (v.redis_up ≡ true)
  unfolding estimate_of
  eta_at_up ride none w up = (w, refl, up)
  eta_at_up ride (some p) w up = let (v, e, still, same) = eta_from_up ride p w up in (_, e, still)

  -- What the maps answer about the way of the ride.
  abbrev pub way_of : Ride → World → Option RouteInfo
  way_of ride w =
      answered
        (get_route api texts config ride.pickup_lat ride.pickup_lon ride.dropoff_lat
          ride.dropoff_lon w).0

  ride_route_up :
      (ride : Ride) (w : World)
      → w.redis_up ≡ true
      → (ride_route api texts config eta_texts ride w).0
        ≡ ok (on_its_way ride.status (way_of ride w))
  unfolding ride_route shows_route same_status
  ride_route_up ride w up =
      let (e, _, _) =
        route_or_null_up ride.pickup_lat ride.pickup_lon ride.dropoff_lat ride.dropoff_lon w up in
      go ride.status
        (route_or_null api texts config eta_texts ride.pickup_lat ride.pickup_lon ride.dropoff_lat
          ride.dropoff_lon)
        (ap (λ a. a.0) e)
    where
      go :
          (s : RideStatus) (m : Action (Option RouteInfo)) {o : Option RouteInfo}
          → (m w).0 ≡ ok o
          → ((if shows_route s then m else pure none) w).0 ≡ ok (on_its_way s o)
      go RideStatus.requested m e = refl
      go RideStatus.matching m e = refl
      go RideStatus.accepted m e = e
      go RideStatus.arrived m e = e
      go RideStatus.in_progress m e = e
      go RideStatus.completed m e = refl
      go RideStatus.cancelled m e = refl

  get_tracking_found :
      (ride_id : ℕ) (ride : Ride) (at : Option Position) (eta : Eta) (route : Option RouteInfo)
      (w v : World)
      → w.redis_up ≡ true
      → find (λ r. r.id == ride_id) (pf.rows w.rides) ≡ some ride
      → get_eta api texts config eta_texts ride w ≡ (ok eta, v)
      → (ride_route api texts config eta_texts ride v).0 ≡ ok route
      → position_at ride.driver_id w ≡ at
      → (get_tracking api texts config eta_texts ride_id w).0 ≡ ok (view_of ride at eta route)
  unfolding get_tracking
  get_tracking_found ride_id ride at eta route w v up row timed routed there =
      let last = λ (o : Option Position) (eta : Eta).
        ride_route api texts config eta_texts ride >>= λ r. pure (view_of ride o eta r) in
      let timing = λ (o : Option Position).
        get_eta api texts config eta_texts ride >>= λ (eta : Eta). last o eta in
      let viewed : (timing at w).0 ≡ ok (view_of ride at eta route) =
        ap (λ a. a.0)
          (then_rest (get_eta api texts config eta_texts ride) (λ (eta : Eta). last at eta) timed)
        ∙ ap
            (λ (o : Outcome (Option RouteInfo)).
              (resume o (λ r. pure (view_of ride at eta r))
                (ride_route api texts config eta_texts ride v).1).0)
            routed in
      rw row (
        ap (λ a. a.0)
          (then_rest (get_driver_position api texts config eta_texts ride.driver_id) timing
            (get_driver_position_up ride.driver_id w up))
        ∙ ap (λ o. (timing o w).0) there
        ∙ viewed)

  -- With Redis up and no ETA kept, polling a ride in the table succeeds whatever the maps provider
  -- does. It answers with the row of the ride and the last known position of its driver. The ETA
  -- is that of the route that the maps give from this position to the dropoff for a ride in
  -- progress, to the pickup otherwise, in minutes rounded and at least one, and the estimate of
  -- the ride if there is no position or no such route. The route is the one that the maps give
  -- from pickup to dropoff, and there is none unless the ride is accepted, arrived or in progress.
  pub get_tracking_lem :
      (ride_id : ℕ) (ride : Ride) (w : World)
      → w.redis_up ≡ true
      → find (λ r. r.id == ride_id) (pf.rows w.rides) ≡ some ride
      → present (pf.get_text w.now (TextKey.eta ride.id) w.redis) ≡ none
      → (get_tracking api texts config eta_texts ride_id w).0
        ≡ ok (record {
          ride_id = ride.id;
          status = ride.status;
          driver = position_at ride.driver_id w;
          pickup = (ride.pickup_lat, ride.pickup_lon);
          dropoff = (ride.dropoff_lat, ride.dropoff_lon);
          route =
              on_its_way ride.status (way_of ride (get_eta api texts config eta_texts ride w).1);
          eta = eta_for ride (position_at ride.driver_id w) w;
        })
  unfolding view_of
  get_tracking_lem ride_id ride w up row free =
      let at = position_at ride.driver_id w in
      let (v, e, still) = eta_at_up ride at w up in
      let timed = get_eta_free ride at w up free refl ∙ e in
      get_tracking_found ride_id ride at (eta_for ride at w)
        (on_its_way ride.status (way_of ride v)) w v up row timed (ride_route_up ride v still) refl
      ∙ ap
          (λ (u : World).
            ok (view_of ride at (eta_for ride at w) (on_its_way ride.status (way_of ride u))))
          (sym (ap (λ a. a.1) timed))

  get_eta-present :
      (ride : Ride) (eta : Eta) (v : World)
      → eta_texts.parse (eta_texts.stringify eta) ≡ some eta
      → same_text (eta_texts.stringify eta) "" ≡ false
      → read_text (TextKey.eta ride.id) v ≡ (ok (some (eta_texts.stringify eta)), v)
      → (get_eta api texts config eta_texts ride v).0 ≡ ok eta
  unfolding get_eta
  get_eta-present ride eta v reads full there =
      ap (λ a. a.0) (then_rest (read_text (TextKey.eta ride.id)) _ there) ∙ rw full (rw reads refl)

  pub get_eta-get_eta :
      (ride later_ride : Ride) (p : Position) (later : ℕ) (w : World)
      → w.redis_up ≡ true
      → present (pf.get_text w.now (TextKey.eta ride.id) w.redis) ≡ none
      → position_at ride.driver_id w ≡ some p
      → later_ride.id ≡ ride.id
      → w.now ≤ later
      → later < w.now + 30_000
      → ((eta : Eta) → (eta_texts.parse (eta_texts.stringify eta) ≡ some eta))
      → ((eta : Eta) → same_text (eta_texts.stringify eta) "" ≡ false)
      → (eta : Eta) × (v : World) × (get_eta api texts config eta_texts ride w ≡ (ok eta, v))
        × ((get_eta api texts config eta_texts later_ride (wait_until later v)).0 ≡ ok eta)
  get_eta-get_eta ride later_ride p later w up free at same from until parses full =
      let (v, e, still, same_time) = eta_from_up ride p w up in
      let eta = eta_with ride (way_from ride p w) in
      (
        eta,
        kept (TextKey.eta ride.id) (eta_texts.stringify eta) eta_ttl v,
        get_eta_free ride (some p) w up free at ∙ e,
        get_eta-present later_ride eta _ (parses eta) (full eta) (
            ap
              (λ k.
                read_text (TextKey.eta k) (
                  wait_until later
                    (kept (TextKey.eta ride.id) (eta_texts.stringify eta) eta_ttl v)))
              same
            ∙ read_text-kept (TextKey.eta ride.id) (eta_texts.stringify eta) eta_ttl later v still
                (omega (arith, same_time)) (omega (arith, same_time))),
      )
