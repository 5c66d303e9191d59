-- ===== src/Drivers/Location.antt =====
-- A position that a driver pushes over HTTP: updateLocation of src/modules/drivers/controllers/drivers.controller.ts,
-- with validateLocationJump of the drivers service. The distance of two points is a parameter.
use obbian_ribe_booking_app.Base.{
  ℕ, ◌≡◌, refl, ◌∙◌, Bool, true, false, Bool-cases, inl, inr, Option, none, some, if◌then◌else◌,
  ◌==◌, ℤ, arith,
}
use obbian_ribe_booking_app.Platform.{Platform, Position}
use obbian_ribe_booking_app.World.{World, Action, ◌>>=◌, ◌>>◌, pure, redis_call, ok}
use obbian_ribe_booking_app.Drivers.Service.{
  update_location, upsert_driver_position, cache_driver_position, set_heartbeat,
}
use obbian_ribe_booking_app.Tracking.Gateway.{LocationUpdate, plausible, plausible_after, take_ping}
use obbian_ribe_booking_app.Tracking.Gateway.Stream.{last_position, stored_ping, take_ping_up}

unfoldable pub plausible_jump : (ℤ → ℤ → ℤ → ℤ → ℕ) → Option Position → ℤ → ℤ → ℕ → Bool
plausible_jump haversine none lat lon timestamp = true
plausible_jump haversine (some prev) lat lon timestamp =
    plausible prev.timestamp timestamp (haversine prev.lat prev.lon lat lon)

abbrev pub ping_of : ℕ → ℕ → ℤ → ℤ → ℕ → LocationUpdate
ping_of user_id ride_id lat lon timestamp = record {
  driver_id = user_id;
  ride_id = ride_id;
  lat = lat;
  lon = lon;
  timestamp = timestamp;
}

module _ ⦃pf : Platform⦄ where
  -- The row of the driver shows when a position has been pushed; a ping over the socket leaves it.
  abbrev pub seen : ℕ → Bool → World → World
  seen user_id true w = record w {
    drivers =
        pf.update (λ d. d.user_id == user_id)
          (λ d. record d { last_location_update_at = some w.now }) w.drivers;
  }
  seen user_id false w = w

module _ ⦃pf : Platform⦄ (haversine : ℤ → ℤ → ℤ → ℤ → ℕ) where
  unfoldable pub validate_location_jump : ℕ → ℤ → ℤ → ℕ → Action Bool
  validate_location_jump driver_id lat lon timestamp =
      redis_call (λ now s. (pf.get_position now driver_id s, s)) >>= λ prev.
      pure (plausible_jump haversine prev lat lon timestamp)

  -- Whether the position has been taken.
  unfoldable pub push_location : ℕ → ℤ → ℤ → ℕ → Action Bool
  push_location user_id lat lon timestamp =
      validate_location_jump user_id lat lon timestamp >>= λ valid.
      if valid then update_location user_id lat lon (some timestamp) >> pure true else pure false

  push_location_up :
      (user_id ride_id : ℕ) (lat lon : ℤ) (timestamp : ℕ) (w : World)
      → w.redis_up ≡ true
      → let ping = ping_of user_id ride_id lat lon timestamp in
        push_location user_id lat lon timestamp w ≡ (
          if plausible_after haversine (last_position haversine user_id w) ping
          then (ok true, seen user_id true (stored_ping haversine ping w))
          else (ok false, w))
  unfolding push_location validate_location_jump update_location upsert_driver_position
      cache_driver_position set_heartbeat plausible_jump plausible_after stored_ping
  push_location_up user_id ride_id lat lon timestamp w up = ground arith

  -- With Redis up, a position that is pushed over HTTP is taken exactly if the same ping over the
  -- socket is, and leaves the same state, but for the time of the last update in the row of the
  -- driver.
  pub push_location-take_ping :
      (user_id ride_id : ℕ) (lat lon : ℤ) (timestamp : ℕ) (w : World)
      → w.redis_up ≡ true
      → (taken : Bool) × (after : World) × (take_ping haversine
            (ping_of user_id ride_id lat lon timestamp)
            w
          ≡ (ok taken, after))
        × (push_location user_id lat lon timestamp w ≡ (ok taken, seen user_id taken after))
  push_location-take_ping user_id ride_id lat lon timestamp w up =
      let ping = ping_of user_id ride_id lat lon timestamp in
      elim (Bool-cases (plausible_after haversine (last_position haversine user_id w) ping)) [
        | inl e ↦ (
          true,
          stored_ping haversine ping w,
          take_ping_up haversine ping w up ∙ rw e refl,
          push_location_up user_id ride_id lat lon timestamp w up ∙ rw e refl,
        )
        | inr e ↦ (
          false,
          w,
          take_ping_up haversine ping w up ∙ rw e refl,
          push_location_up user_id ride_id lat lon timestamp w up ∙ rw e refl,
        )
      ]
