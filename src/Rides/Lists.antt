-- ===== src/Rides/Lists.antt =====
-- The lists of rides: getActiveRidesForRider, getActiveRideForDriver and getHistoryForRider of
-- src/modules/rides/services/rides.service.ts, and listForRider of scheduled-rides.service.ts. Rows of one
-- time come in the order of the table.

use obbian_ribe_booking_app.Base.{
  ℕ, ◌+◌, ◌≡◌, refl, ap, ◌==◌, Bool, true, false, ◌&&◌, ◌||◌, Option, none, some, List, ◌++◌, ltb,
  select, take, drop, take-drop-add, All, All-take, All-drop, All-select, arith,
}
use obbian_ribe_booking_app.Base.Sort.{
  sort_by, IsSorted, sort_by-IsSorted, sort_by-All, IsSorted-take, IsSorted-drop,
}
use obbian_ribe_booking_app.Platform.{Platform}
use obbian_ribe_booking_app.World.{World, Action, gets, select_one, ok}
use obbian_ribe_booking_app.Schema.{Ride, RideStatus, ScheduledRide, same_status}
use obbian_ribe_booking_app.Rides.Fraud.{is_active_ride}

abbrev is_driver_of : ℕ → Option ℕ → Bool
is_driver_of driver_id none = false
is_driver_of driver_id (some d) = d == driver_id

-- The ride has been accepted and is not over.
unfoldable pub is_under_way : RideStatus → Bool
is_under_way s =
    same_status s RideStatus.accepted
    || (same_status s RideStatus.arrived || same_status s RideStatus.in_progress)

-- ORDER BY createdAt DESC
abbrev pub newer : Ride → Ride → Bool
newer a b = ltb b.created_at a.created_at

-- ORDER BY scheduledFor
abbrev pub sooner : ScheduledRide → ScheduledRide → Bool
sooner a b = ltb a.scheduled_for b.scheduled_for

abbrev is_completed_by : ℕ → Ride → Bool
is_completed_by rider_id r = r.rider_id == rider_id && same_status r.status RideStatus.completed

-- The rider has completed the ride.
abbrev pub IsCompletedBy : ℕ → Ride → Type 0
IsCompletedBy rider_id r =
    r.rider_id == rider_id && same_status r.status RideStatus.completed ≡ true

unfoldable pub completed_rides_of : ℕ → List Ride → List Ride
completed_rides_of rider_id rides = select (is_completed_by rider_id) rides

module _ ⦃pf : Platform⦄ where
  unfoldable pub get_active_rides_for_rider : ℕ → Action (List Ride)
  get_active_rides_for_rider rider_id = gets λ w.
      sort_by newer (select (λ r. r.rider_id == rider_id && is_active_ride r) (pf.rows w.rides))

  unfoldable pub get_active_ride_for_driver : ℕ → Action (Option Ride)
  get_active_ride_for_driver driver_id =
      select_one (λ w. w.rides) (λ r. is_driver_of driver_id r.driver_id && is_under_way r.status)

  unfoldable pub get_history_for_rider : ℕ → ℕ → ℕ → Action (List Ride)
  get_history_for_rider rider_id limit offset =
      gets λ w.
        take limit (drop offset (sort_by newer (completed_rides_of rider_id (pf.rows w.rides))))

  unfoldable pub list_for_rider : ℕ → Action (List ScheduledRide)
  list_for_rider rider_id = gets λ w.
      take 20 (sort_by sooner (select (λ s. s.rider_id == rider_id) (pf.rows w.scheduled_rides)))

  history-IsSorted : (rides : List Ride) → IsSorted newer (sort_by newer rides)
  history-IsSorted rides =
      sort_by-IsSorted newer (λ a b h. ground arith) (λ a b c h k. ground arith) rides

  -- What the history of a rider is, read in one piece or in several.
  pub get_history_for_rider-pages :
      (rider_id limit more offset : ℕ) (w : World)
      → (first : List Ride) × (second : List Ride) × (get_history_for_rider rider_id limit offset w
          ≡ (ok first, w))
        × (get_history_for_rider rider_id more (offset + limit) w ≡ (ok second, w))
        × (get_history_for_rider rider_id (limit + more) offset w ≡ (ok (first ++ second), w))
        × IsSorted newer first
        × All (IsCompletedBy rider_id) first
  unfolding get_history_for_rider completed_rides_of
  get_history_for_rider-pages rider_id limit more offset w =
      let rides = sort_by newer (completed_rides_of rider_id (pf.rows w.rides)) in
      (
        _,
        _,
        refl,
        refl,
        ap (λ page. (ok page, w)) (take-drop-add limit more offset rides),
        IsSorted-take newer limit _ (IsSorted-drop newer offset rides (history-IsSorted _)),
        All-take (IsCompletedBy rider_id) limit _ (
            All-drop (IsCompletedBy rider_id) offset rides (
              sort_by-All newer (IsCompletedBy rider_id) _
                (All-select (is_completed_by rider_id) (pf.rows w.rides)))),
      )
