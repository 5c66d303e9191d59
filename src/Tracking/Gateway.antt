-- ===== src/Tracking/Gateway.antt =====
-- src/modules/tracking/gateways/tracking.gateway.ts: the sockets, their rooms, and the stream of positions. The
-- distance of two points (haversine) is a parameter, in millimetres.

pub mod Stream
use Prim.Native.String.{String}
use text.Mathlib.Text.{◌==◌ as same_text}
use obbian_ribe_booking_app.Base.{
  ℕ, ◌+◌, ◌*◌, ◌-◌, ◌==◌, Bool, true, false, not, ◌&&◌, ◌||◌, Option, none, some, List, [], ◌∷◌,
  ◌++◌, ltb, leb, if◌then◌else◌, find, select, map_where, ℤ,
}
use obbian_ribe_booking_app.Platform.{Platform, Position}
use obbian_ribe_booking_app.World.{World, Action, ◌>>=◌, ◌>>◌, pure, redis_call, Outcome, ok, err}
use obbian_ribe_booking_app.Schema.{UserRole}
use obbian_ribe_booking_app.Drivers.Service.{
  upsert_driver_position, cache_driver_position, set_heartbeat,
}

-- A connected socket: its user and role once the handshake has succeeded, and the rides whose rooms it
-- has joined.
pub record Socket : Type 0 where
  pub id : String
  pub user : Option (ℕ × UserRole)
  pub rides : List ℕ

pub record LocationUpdate : Type 0 where
  pub driver_id : ℕ
  pub ride_id : ℕ
  pub lat : ℤ
  pub lon : ℤ
  pub timestamp : ℕ

-- The state of the backend, its sockets, and what has been sent to the rooms of rides.
pub record Gateway ⦃pf : Platform⦄ : Type 0 where
  pub world : World
  pub sockets : List Socket
  pub emitted : List LocationUpdate

pub data Reply : Type 0 where
  -- the errors 'Unauthorized', 'IMPLAUSIBLE_JUMP' and 'Bad payload', and an exception
  unauthorized implausible bad_payload failed : Reply
  success : Reply

-- Whether a jump of `distance` millimetres in the time between two pings is at most 200 km/h, plus 50 m.
unfoldable pub plausible : ℕ → ℕ → ℕ → Bool
plausible previous timestamp distance =
    ltb previous timestamp && leb (18 * distance) (1000 * (timestamp - previous) + 900_000)

-- Whether a ping is plausible after the last known position, with `haversine` for the distance.
unfoldable pub plausible_after : (ℤ → ℤ → ℤ → ℤ → ℕ) → Option Position → LocationUpdate → Bool
plausible_after haversine none ping = true
plausible_after haversine (some prev) ping =
    plausible prev.timestamp ping.timestamp (haversine prev.lat prev.lon ping.lat ping.lon)

unfoldable pub without_ride : ℕ → List ℕ → List ℕ
without_ride ride_id [] = []
without_ride ride_id (r ∷ rs) =
    let rest = without_ride ride_id rs in if r == ride_id then rest else r ∷ rest

unfoldable pub driver_id_of : Option (ℕ × UserRole) → Option ℕ
driver_id_of (some (user_id, UserRole.driver)) = some user_id
driver_id_of _ = none

module _ ⦃pf : Platform⦄ where
  abbrev change_socket : String → (Socket → Socket) → Gateway → Gateway
  change_socket id f g = record g { sockets = map_where (λ s. same_text s.id id) f g.sockets }

  unfoldable pub join_ride : Socket → Option ℕ → Gateway → Reply × Gateway
  join_ride client none g = (Reply.bad_payload, g)
  join_ride client (some ride_id) g = elim client.user [
    | none ↦ (Reply.bad_payload, g)
    | some user ↦
        (Reply.success, change_socket client.id (λ s. record s { rides = ride_id ∷ s.rides }) g)
  ]

  unfoldable pub leave_ride : Socket → ℕ → Gateway → Reply × Gateway
  leave_ride client ride_id g = (
    Reply.success,
    change_socket client.id (λ s. record s { rides = without_ride ride_id s.rides }) g,
  )

  -- Index, cached position and heartbeat.
  unfoldable pub store_ping : LocationUpdate → Action (Unit {0})
  store_ping ping =
      upsert_driver_position ping.driver_id ping.lon ping.lat
      >> cache_driver_position ping.driver_id ping.lat ping.lon ping.timestamp
      >> set_heartbeat ping.driver_id

module _ ⦃pf : Platform⦄ (haversine : ℤ → ℤ → ℤ → ℤ → ℕ) where
  unfoldable pub verify_jump : LocationUpdate → Action Bool
  verify_jump ping = redis_call (λ now s. (pf.get_position now ping.driver_id s, s)) >>= λ prev.
      pure (plausible_after haversine prev ping)

  unfoldable pub take_ping : LocationUpdate → Action Bool
  take_ping ping =
      verify_jump ping >>= λ valid. if valid then store_ping ping >> pure true else pure false

  abbrev pub replied : LocationUpdate → Gateway → Outcome Bool → World → Reply × Gateway
  replied ping g (ok true) w =
      (Reply.success, record g { world = w; emitted = g.emitted ++ ping ∷ [] })
  replied ping g (ok false) w = (Reply.implausible, record g { world = w })
  replied ping g (err e) w = (Reply.failed, record g { world = w })

  unfoldable pub driver_location : Socket → ℕ → ℤ → ℤ → ℕ → Gateway → Reply × Gateway
  driver_location client ride_id lat lon timestamp g = elim (driver_id_of client.user) [
    | none ↦ (Reply.unauthorized, g)
    | some driver_id ↦
        let ping : LocationUpdate = record {
          driver_id = driver_id;
          ride_id = ride_id;
          lat = lat;
          lon = lon;
          timestamp = timestamp;
        } in
        replied ping g (take_ping ping g.world).0 (take_ping ping g.world).1
  ]
