-- ===== src/Tracking/Gateway/Stream.antt =====
-- The pings of one driver's socket that are taken (src/modules/tracking/gateways/tracking.gateway.ts).
use mathlib.Core.List.{append-nil, append_assoc}
use obbian_ribe_booking_app.Base.{
  ℕ, pos, ◌≡◌, refl, ap, sym, ◌∙◌, ==-refl, true, false, Option, some, List, [], ◌∷◌, ◌++◌, subst,
  if◌then◌else◌, Bool-cases, inl, inr, ℤ, arith,
}
use obbian_ribe_booking_app.Platform.{Platform, Position, RedisKey}
use obbian_ribe_booking_app.World.{World, ok}
use obbian_ribe_booking_app.Schema.{UserRole}
use obbian_ribe_booking_app.Drivers.Service.{
  heartbeat_ttl_seconds, upsert_driver_position, cache_driver_position, set_heartbeat,
}
use obbian_ribe_booking_app.Tracking.Gateway.{
  Socket, LocationUpdate, Gateway, driver_id_of, plausible_after, verify_jump, store_ping,
  take_ping, driver_location,
}

abbrev position_of : LocationUpdate → Position
position_of ping = record { lat = ping.lat; lon = ping.lon; timestamp = ping.timestamp }

-- Each ping is plausible after the one before it, and the first after a given position.
unfoldable pub Chained : (ℤ → ℤ → ℤ → ℤ → ℕ) → Option Position → List LocationUpdate → Type 0
Chained haversine prev [] = Unit
Chained haversine prev (ping ∷ pings) =
    (plausible_after haversine prev ping ≡ true) × Chained haversine (some (position_of ping)) pings

-- What a socket sends: ride, latitude, longitude and time.
pub record Ping : Type 0 where
  pub ride_id : ℕ
  pub lat : ℤ
  pub lon : ℤ
  pub timestamp : ℕ

abbrev pub update_of : ℕ → Ping → LocationUpdate
update_of driver_id p = record {
  driver_id = driver_id;
  ride_id = p.ride_id;
  lat = p.lat;
  lon = p.lon;
  timestamp = p.timestamp;
}

module _ ⦃pf : Platform⦄ (haversine : ℤ → ℤ → ℤ → ℤ → ℕ) where
  abbrev pub last_position : ℕ → World → Option Position
  last_position driver_id w = pf.get_position w.now driver_id w.redis

  unfoldable pub stored_ping : LocationUpdate → World → World
  stored_ping ping w = record w {
    redis = pf.set w.now (RedisKey.heartbeat ping.driver_id) (pos 1) heartbeat_ttl_seconds (
        pf.set_position w.now ping.driver_id (position_of ping) 300
          (pf.geoadd ping.driver_id ping.lon ping.lat w.redis));
  }

  pub take_ping_up :
      (ping : LocationUpdate) (w : World)
      → w.redis_up ≡ true
      → take_ping haversine ping w ≡ (
          if plausible_after haversine (last_position ping.driver_id w) ping
          then (ok true, stored_ping ping w)
          else (ok false, w))
  unfolding take_ping verify_jump store_ping upsert_driver_position cache_driver_position
      set_heartbeat stored_ping
  take_ping_up ping w up = ground arith

  last_position-stored_ping :
      (ping : LocationUpdate) (w : World)
      → last_position ping.driver_id (stored_ping ping w) ≡ some (position_of ping)
  unfolding stored_ping
  last_position-stored_ping ping w =
      pf.get_position-set w.now w.now ping.driver_id (RedisKey.heartbeat ping.driver_id) (pos 1)
        heartbeat_ttl_seconds _
      ∙ pf.get_position-set_position w.now w.now ping.driver_id ping.driver_id (position_of ping)
          300 (pf.geoadd ping.driver_id ping.lon ping.lat w.redis) (omega arith)
      ∙ ground (arith, ==-refl ping.driver_id)

  stored_up :
      (ping : LocationUpdate) (w : World) → w.redis_up ≡ true → (stored_ping ping w).redis_up ≡ true
  unfolding stored_ping
  stored_up ping w up = up

  -- The pings of one socket, one after the other, and how each was answered.
  unfoldable pub stream : Socket → List Ping → Gateway → Gateway
  stream client [] g = g
  stream client (p ∷ ps) g =
      stream client ps (driver_location haversine client p.ride_id p.lat p.lon p.timestamp g).1

  abbrev taken : ℕ → Ping → Gateway → Gateway
  taken driver_id p g = record g {
    world = stored_ping (update_of driver_id p) g.world;
    emitted = g.emitted ++ update_of driver_id p ∷ [];
  }

  driver_location-taken :
      (client : Socket) (driver_id : ℕ) (p : Ping) (g : Gateway)
      → client.user ≡ some (driver_id, UserRole.driver)
      → g.world.redis_up ≡ true
      → plausible_after haversine (last_position driver_id g.world) (update_of driver_id p) ≡ true
      → (driver_location haversine client p.ride_id p.lat p.lon p.timestamp g).1
        ≡ taken driver_id p g
  unfolding driver_location driver_id_of
  driver_location-taken client driver_id p g known up good =
      rw (known, take_ping_up (update_of driver_id p) g.world up, good) refl

  driver_location-refused :
      (client : Socket) (driver_id : ℕ) (p : Ping) (g : Gateway)
      → client.user ≡ some (driver_id, UserRole.driver)
      → g.world.redis_up ≡ true
      → plausible_after haversine (last_position driver_id g.world) (update_of driver_id p) ≡ false
      → (driver_location haversine client p.ride_id p.lat p.lon p.timestamp g).1 ≡ g
  unfolding driver_location driver_id_of
  driver_location-refused client driver_id p g known up bad =
      rw (known, take_ping_up (update_of driver_id p) g.world up, bad) refl

  -- While the socket of a driver sends pings, with Redis up and the clock standing still, what is sent on
  -- to the rooms of rides is a sequence of updates in which each is plausible after the one before it,
  -- and the first after the last known position.
  pub stream-Chained :
      (client : Socket) (driver_id : ℕ) (ps : List Ping) (g : Gateway)
      → client.user ≡ some (driver_id, UserRole.driver)
      → g.world.redis_up ≡ true
      → (sent : List LocationUpdate) × ((stream client ps g).emitted ≡ g.emitted ++ sent)
        × Chained haversine (last_position driver_id g.world) sent
  unfolding stream Chained
  stream-Chained client driver_id [] g known up = ([], sym (append-nil g.emitted), tt)
  stream-Chained client driver_id (p ∷ ps) g known up =
      elim (Bool-cases
        (plausible_after haversine (last_position driver_id g.world) (update_of driver_id p))) [
          | inl good ↦
              let (sent, all, chained) =
                stream-Chained client driver_id ps (taken driver_id p g) known
                  (stored_up (update_of driver_id p) g.world up) in
              (
                update_of driver_id p ∷ sent,
                ap (λ h. (stream client ps h).emitted)
                      (driver_location-taken client driver_id p g known up good)
                    ∙ all
                    ∙ append_assoc g.emitted (update_of driver_id p ∷ []) sent,
                (
                  good,
                  subst (λ o. Chained haversine o sent)
                      (last_position-stored_ping (update_of driver_id p) g.world) chained,
                ),
              )
          | inr bad ↦
              let (sent, all, chained) = stream-Chained client driver_id ps g known up in
              (
                sent,
                ap (λ h. (stream client ps h).emitted)
                      (driver_location-refused client driver_id p g known up bad)
                    ∙ all,
                chained,
              )
        ]
