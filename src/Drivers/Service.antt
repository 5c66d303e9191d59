-- ===== src/Drivers/Service.antt =====
-- The writes of src/modules/drivers/services/drivers.service.ts, with src/common/redis/geo.service.ts.
pub mod Laws
use mathlib.Core.Option
use obbian_ribe_booking_app.Base.{
  ℕ, ◌+◌, ◌==◌, Bool, true, false, ◌||◌, Option, none, some, List, [], ◌∷◌, if◌then◌else◌, ℤ, pos,
}
use obbian_ribe_booking_app.Platform.{Platform, RedisKey}
use obbian_ribe_booking_app.World.{
  World, Action, ◌>>=◌, ◌>>◌, pure, modify, gets, select_one, or_throw, redis_call, Failure,
}
use obbian_ribe_booking_app.Schema.{Driver, DriverStatus, RideType, same_driver_status}

abbrev pub heartbeat_ttl_seconds : ℕ
heartbeat_ttl_seconds = 90

-- The columns that updateStatus sets.
unfoldable pub status_patch : DriverStatus → ℕ → Driver → Driver
status_patch status now d = record d {
  status = status;
  online_since = if same_driver_status status DriverStatus.online then some now else none;
  updated_at = now;
}

module _ ⦃pf : Platform⦄ where
  unfoldable pub get_profile : ℕ → Action Driver
  get_profile driver_id = do
    driver ← select_one (λ w. w.drivers) (λ d. d.user_id == driver_id)
    or_throw driver Failure.not_found

  abbrev pub update_drivers : ℕ → (World → Driver → Driver) → Action (Unit {0})
  update_drivers driver_id f =
      modify (λ w. record w { drivers = pf.update (λ d. d.user_id == driver_id) (f w) w.drivers })

  unfoldable pub remove_driver_position : ℕ → Action (Unit {0})
  remove_driver_position driver_id = redis_call (λ now s. (tt, pf.zrem driver_id s))

  unfoldable pub update_status : ℕ → DriverStatus → Action (Unit {0})
  update_status driver_id status = get_profile driver_id >>= λ _.
      update_drivers driver_id (λ w. status_patch status w.now) >>= λ _.
      if same_driver_status status DriverStatus.offline
        || same_driver_status status DriverStatus.on_ride
      then remove_driver_position driver_id
      else pure tt

  unfoldable pub upsert_driver_position : ℕ → ℤ → ℤ → Action (Unit {0})
  upsert_driver_position driver_id lon lat =
      redis_call (λ now s. (tt, pf.geoadd driver_id lon lat s))

  unfoldable pub set_heartbeat : ℕ → Action (Unit {0})
  set_heartbeat driver_id =
      redis_call
        (λ now s. (tt, pf.set now (RedisKey.heartbeat driver_id) (pos 1) heartbeat_ttl_seconds s))

  unfoldable pub cache_driver_position : ℕ → ℤ → ℤ → ℕ → Action (Unit {0})
  cache_driver_position driver_id lat lon timestamp = redis_call (λ now s. (
    tt,
    pf.set_position now driver_id (record { lat = lat; lon = lon; timestamp = timestamp }) 300 s,
  ))

  unfoldable pub complete_ride : ℕ → ℤ → ℤ → Action (Unit {0})
  complete_ride driver_id lat lon = do
    update_drivers driver_id (λ w d. record d {
      status = DriverStatus.online;
      online_since = some w.now;
      total_rides = d.total_rides + 1;
      updated_at = w.now;
    })
    upsert_driver_position driver_id lon lat
    now ← gets (λ w. w.now)
    cache_driver_position driver_id lat lon now
    set_heartbeat driver_id

  unfoldable pub update_location : ℕ → ℤ → ℤ → Option ℕ → Action (Unit {0})
  update_location driver_id lat lon timestamp = do
    upsert_driver_position driver_id lon lat
    now ← gets (λ w. w.now)
    cache_driver_position driver_id lat lon (Option.get_or timestamp now)
    update_drivers driver_id (λ w d. record d { last_location_update_at = some w.now })
    set_heartbeat driver_id
