-- ===== src/Drivers/Service/Laws.antt =====
-- What the driver service does to the row and to the geo index of a driver.
use obbian_ribe_booking_app.Base.{
  ℕ, ◌+◌, ◌==◌, ==-refl, ◌≡◌, ◌≢◌, refl, ap, true, false, Option, some, find, find-map_where,
  find-satisfies, arith, ℤ,
}
use obbian_ribe_booking_app.Platform.{Platform}
use obbian_ribe_booking_app.World.{World, ok}
use obbian_ribe_booking_app.Schema.{Driver, DriverStatus, same_driver_status}
use obbian_ribe_booking_app.Drivers.Service.{
  get_profile, update_drivers, update_status, status_patch, complete_ride, upsert_driver_position,
  cache_driver_position, set_heartbeat, remove_driver_position,
}

module _ ⦃pf : Platform⦄ where
  abbrev pub driver_row : World → ℕ → Option Driver
  driver_row w driver_id = find (λ d. d.user_id == driver_id) (pf.rows w.drivers)

  pub driver_row-update_drivers :
      (driver_id : ℕ) (f : World → Driver → Driver) (w : World) {d : Driver}
      → ((d : Driver) → (f w d).user_id ≡ d.user_id)
      → driver_row w driver_id ≡ some d
      → driver_row (update_drivers driver_id f w).1 driver_id ≡ some (f w d)
  driver_row-update_drivers driver_id f w {d} keeps e = rw (
    pf.rows-update (λ d. d.user_id == driver_id) (f w) w.drivers,
    find-map_where (λ d. d.user_id == driver_id) (λ d. d.user_id == driver_id) (f w)
        (pf.rows w.drivers) (λ d. ap (λ i. i == driver_id) (keeps d)),
    e,
    find-satisfies (λ d. d.user_id == driver_id) (pf.rows w.drivers) e,
  )

  -- The row that completeRide leaves.
  unfoldable pub restored : ℕ → Driver → Driver
  restored now d = record d {
    status = DriverStatus.online;
    online_since = some now;
    total_rides = d.total_rides + 1;
    updated_at = now;
  }

  complete_ride-drivers :
      (driver_id : ℕ) (lat lon : ℤ) (w : World)
      → (complete_ride driver_id lat lon w).1.drivers
        ≡ (update_drivers driver_id (λ w d. restored w.now d) w).1.drivers
  unfolding complete_ride upsert_driver_position cache_driver_position set_heartbeat restored
  complete_ride-drivers driver_id lat lon w = ground arith

  pub complete_ride-rides :
      (driver_id : ℕ) (lat lon : ℤ) (w : World)
      → (complete_ride driver_id lat lon w).1.rides ≡ w.rides
  unfolding complete_ride upsert_driver_position cache_driver_position set_heartbeat
  complete_ride-rides driver_id lat lon w = ground arith

  -- completeRide sets the driver online and counts one more ride, also where Redis then fails.
  pub driver_row-complete_ride :
      (driver_id : ℕ) (lat lon : ℤ) (w : World) {d : Driver}
      → driver_row w driver_id ≡ some d
      → driver_row (complete_ride driver_id lat lon w).1 driver_id ≡ some (restored w.now d)
  unfolding restored
  driver_row-complete_ride driver_id lat lon w e =
      rw (complete_ride-drivers driver_id lat lon w)
        (driver_row-update_drivers driver_id (λ w d. restored w.now d) w (λ d. refl) e)

  pub update_status-away :
      (driver_id : ℕ) (status : DriverStatus) (w : World) {d : Driver}
      → status ≢ DriverStatus.online
      → w.redis_up ≡ true
      → driver_row w driver_id ≡ some d
      → update_status driver_id status w ≡ (
        ok tt,
        record (update_drivers driver_id (λ w. status_patch status w.now) w).1 {
          redis = pf.zrem driver_id w.redis;
        },
      )
  unfolding update_status get_profile remove_driver_position same_driver_status
  update_status-away driver_id DriverStatus.online w away up e = absurd (away refl)
  update_status-away driver_id _ w away up e = ground arith

  status_patch-id :
      (status : DriverStatus) (now : ℕ) (d : Driver)
      → (status_patch status now d).user_id ≡ d.user_id
  unfolding status_patch
  status_patch-id status now d = refl

  -- A registered driver who goes offline or on a ride has that status in the table and is no longer
  -- in the geo index, so that no search for nearby drivers finds them.
  pub update_status_leaves :
      (driver_id : ℕ) (status : DriverStatus) (w : World) {d : Driver}
      → status ≢ DriverStatus.online
      → w.redis_up ≡ true
      → driver_row w driver_id ≡ some d
      → let (result, w') = update_status driver_id status w in
        (result ≡ ok tt)
        × (driver_row w' driver_id ≡ some (status_patch status w.now d))
        × (pf.indexed driver_id w'.redis ≡ false)
  update_status_leaves driver_id status w away up e =
      rw (update_status-away driver_id status w away up e) (
        refl,
        driver_row-update_drivers driver_id (λ w. status_patch status w.now) w
            (status_patch-id status w.now) e,
        rw (pf.indexed-zrem driver_id driver_id w.redis, ==-refl driver_id) refl,
      )
