-- ===== src/Maps/Service.antt =====
-- src/modules/maps/services/maps.service.ts: routes, addresses and suggestions from a provider, the first two
-- kept in Redis.
use Prim.Native.String.{String}
use Prim.Native.String.{◌++◌ as append_text}
use text.Mathlib.Text.{◌==◌ as same_text}
use obbian_ribe_booking_app.Base.{
  ℕ, take, Bool, false, not, ◌||◌, Option, none, some, List, [], ◌∷◌, if◌then◌else◌, ℤ, pos,
  to_fixed_by,
}
use obbian_ribe_booking_app.Platform.{Platform, TextKey}
use obbian_ribe_booking_app.World.{
  Action, ◌>>=◌, ◌>>◌, pure, throw, throw_if, or_throw, redis_call, ignore_error, Failure,
}
use obbian_ribe_booking_app.Maps.Api.{RouteInfo, GoogleLeg, GoogleRoute, Prediction, MapsApi, Texts}

pub record PlaceSuggestion : Type 0 where
  pub place_id : String
  pub address : String
  pub lat : ℤ
  pub lon : ℤ

pub record MapsConfig : Type 0 where
  pub provider : String
  pub google_api_key : Option String

-- `list?.[0]`
unfoldable pub first {ℓ} : {A : Type ℓ} → Option (List A) → Option A
first none = none
first (some []) = none
first (some (x ∷ xs)) = some x

abbrev or_zero : Option ℕ → ℕ
or_zero none = 0
or_zero (some n) = n

abbrev distance_of : Option GoogleLeg → ℕ
distance_of none = 0
distance_of (some leg) = or_zero leg.distance

abbrev duration_of : Option GoogleLeg → ℕ
duration_of none = 0
duration_of (some leg) = or_zero leg.duration

unfoldable pub filled : Option String → Bool
filled none = false
filled (some s) = not (same_text s "")

unfoldable pub route_of : GoogleRoute → RouteInfo
route_of r = record {
  distance = distance_of (first r.legs);
  duration = duration_of (first r.legs);
  polyline = r.points;
}

unfoldable pub list_or_empty : Option (List Prediction) → List Prediction
list_or_empty none = []
list_or_empty (some ps) = ps

unfoldable pub location_or_origin : Option (ℤ × ℤ) → ℤ × ℤ
location_or_origin none = (pos 0, pos 0)
location_or_origin (some l) = l

abbrev pub route_ttl : ℕ
route_ttl = 30

abbrev pub geocode_ttl : ℕ
geocode_ttl = 86_400

-- The key of a route: its four coordinates with five digits.
unfoldable pub route_key : ℤ → ℤ → ℤ → ℤ → TextKey
route_key pickup_lat pickup_lon dropoff_lat dropoff_lon =
    TextKey.route (to_fixed_by 10 pickup_lat) (to_fixed_by 10 pickup_lon)
      (to_fixed_by 10 dropoff_lat) (to_fixed_by 10 dropoff_lon)

unfoldable pub geocode_key : ℤ → ℤ → TextKey
geocode_key lat lon = TextKey.geocode (to_fixed_by 10 lat) (to_fixed_by 10 lon)

-- A text that JavaScript takes for true.
abbrev pub present : Option String → Option String
present none = none
present (some s) = if same_text s "" then none else some s

module _ ⦃pf : Platform⦄ where
  unfoldable pub read_text : TextKey → Action (Option String)
  read_text key = redis_call (λ now s. (pf.get_text now key s, s))

  -- `if (cached) return f(cached);`
  abbrev pub or_else : {A : Type 0} → Option String → (String → Action A) → Action A → Action A
  or_else none f m = m
  or_else (some s) f m = f s

  -- A failure to keep a text is not one of the request.
  unfoldable pub keep_text : TextKey → String → ℕ → Action (Unit {0})
  keep_text key text seconds =
      ignore_error (redis_call (λ now s. (tt, pf.set_text now key text seconds s)))

module _ ⦃pf : Platform⦄ (api : MapsApi) (texts : Texts) (config : MapsConfig) where
  abbrev uses_google : Bool
  uses_google = same_text config.provider "google"

  unfoldable pub google_route : ℤ → ℤ → ℤ → ℤ → Action RouteInfo
  google_route p_lat p_lon d_lat d_lon = do
    throw_if (not (filled config.google_api_key)) Failure.unavailable
    answer ← or_throw (api.directions p_lat p_lon d_lat d_lon) Failure.internal
    throw_if (not answer.is_ok) Failure.unavailable
    found ← or_throw (first answer.routes) Failure.unavailable
    pure (route_of found)

  unfoldable pub osrm_route : ℤ → ℤ → ℤ → ℤ → Action RouteInfo
  osrm_route p_lat p_lon d_lat d_lon = do
    answer ← or_throw (api.osrm p_lat p_lon d_lat d_lon) Failure.internal
    throw_if (not answer.is_ok || answer.is_empty) Failure.unavailable
    throw_if (not answer.code_ok) Failure.unavailable
    or_throw (first answer.routes) Failure.unavailable

  unfoldable pub provider_route : ℤ → ℤ → ℤ → ℤ → Action RouteInfo
  provider_route p_lat p_lon d_lat d_lon =
      if uses_google
      then google_route p_lat p_lon d_lat d_lon
      else osrm_route p_lat p_lon d_lat d_lon

  unfoldable pub get_route : ℤ → ℤ → ℤ → ℤ → Action RouteInfo
  get_route p_lat p_lon d_lat d_lon =
      let key = route_key p_lat p_lon d_lat d_lon in
      read_text key >>= λ cached.
      or_else (present cached) (λ text. or_throw (texts.parse text) Failure.internal)
        (provider_route p_lat p_lon d_lat d_lon >>= λ found.
          keep_text key (texts.stringify found) route_ttl >> pure found)

  unfoldable pub google_reverse_geocode : ℤ → ℤ → Action String
  google_reverse_geocode lat lon = do
    throw_if (not (filled config.google_api_key)) Failure.unavailable
    results ← or_throw (api.geocode lat lon) Failure.internal
    pure (elim (first results) [
      | some address ↦ address
      | none ↦ append_text (texts.fixed lat) (append_text ", " (texts.fixed lon))
    ])

  unfoldable pub reverse_geocode : ℤ → ℤ → Action String
  reverse_geocode lat lon =
      let key = geocode_key lat lon in
      read_text key >>= λ cached. or_else (present cached) pure (
        google_reverse_geocode lat lon >>= λ address.
        keep_text key address geocode_ttl >> pure address)

  unfoldable pub google_place_details : String → Action (ℤ × ℤ)
  google_place_details place_id = do
    location ← or_throw (api.place_details place_id) Failure.internal
    pure (location_or_origin location)

  -- Promise.all, whose calls share no state.
  unfoldable pub suggestions : List Prediction → Action (List PlaceSuggestion)
  suggestions [] = pure []
  suggestions (p ∷ ps) = google_place_details p.place_id >>= λ location. suggestions ps >>= λ rest.
      pure (
        record {
          place_id = p.place_id;
          address = p.description;
          lat = location.0;
          lon = location.1;
        }
        ∷ rest)

  unfoldable pub google_autocomplete : String → Action (List PlaceSuggestion)
  google_autocomplete query = do
    throw_if (not (filled config.google_api_key)) Failure.unavailable
    answer ← or_throw (api.autocomplete query) Failure.internal
    if answer.is_ok then suggestions (take 5 (list_or_empty answer.predictions)) else pure []

  unfoldable pub autocomplete : String → Action (List PlaceSuggestion)
  autocomplete query = if uses_google then google_autocomplete query else throw Failure.unavailable
