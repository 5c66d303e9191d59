-- ===== src/Maps/Api.antt =====
-- What Google Maps and OSRM answer (src/modules/maps/services/maps.service.ts reads these fields), with metres,
-- seconds and coordinates in millionths of a degree. `none` is a call of fetch that throws.
use Prim.Native.String.{String}
use obbian_ribe_booking_app.Base.{ℕ, ℤ, Bool, Option, List}

pub record RouteInfo : Type 0 where
  pub distance : ℕ
  pub duration : ℕ
  pub polyline : Option String

pub record GoogleLeg : Type 0 where
  pub distance : Option ℕ
  pub duration : Option ℕ

pub record GoogleRoute : Type 0 where
  pub legs : Option (List GoogleLeg)
  pub points : Option String

-- `is_ok` is that the status is 'OK'.
pub record Directions : Type 0 where
  pub is_ok : Bool
  pub routes : Option (List GoogleRoute)

pub record Prediction : Type 0 where
  pub place_id : String
  pub description : String

pub record Predictions : Type 0 where
  pub is_ok : Bool
  pub predictions : Option (List Prediction)

-- `is_ok` is that the HTTP status is a success, and `is_empty` that the text is; `code_ok` is that the
-- code is 'Ok'.
pub record OsrmAnswer : Type 0 where
  pub is_ok : Bool
  pub is_empty : Bool
  pub code_ok : Bool
  pub routes : Option (List RouteInfo)

pub record MapsApi : Type 0 where
  pub directions : ℤ → ℤ → ℤ → ℤ → Option Directions
  pub osrm : ℤ → ℤ → ℤ → ℤ → Option OsrmAnswer
  pub autocomplete : String → Option Predictions
  -- the location of a place, if the answer has one
  pub place_details : String → Option (Option (ℤ × ℤ))
  -- the addresses, if the answer has any
  pub geocode : ℤ → ℤ → Option (Option (List String))

-- JSON.stringify and JSON.parse of a route, and the text of a coordinate with toFixed(5).
pub record Texts : Type 0 where
  pub stringify : RouteInfo → String
  pub parse : String → Option RouteInfo
  pub fixed : ℤ → String
