-- ===== src/Rides/Lifecycle/Transition.antt =====
-- What one transition does, on each of its branches, and what two racing ones do.
use Prim.Native.String.{String}
use obbian_ribe_booking_app.Base.{
  ℕ, ◌==◌, ◌≡◌, ◌≢◌, refl, Bool, true, ◌&&◌, none, some, [], ◌∷◌, ◌++◌, find, find-narrow,
  find-map_where-none, find-satisfies, arith, Bool-cases, inl, inr,
}
use obbian_ribe_booking_app.Platform.{Platform}
use obbian_ribe_booking_app.World.{World, ok, err, Failure}
use obbian_ribe_booking_app.Schema.{
  Ride, RideStatus, same_status, same_status_iff, same_status_refl,
}
use obbian_ribe_booking_app.Rides.StateMachine.{allows_transition}
use obbian_ribe_booking_app.Rides.Service.{
  get_ride, update_ride, commit_transition, transition_as, write_ride_event, outbox_row,
  transition_payload, changed_ride,
}
use obbian_ribe_booking_app.Rides.Lifecycle.History.{ride_row, ride_row-update_ride}

module _ ⦃pf : Platform⦄ (ride_id : ℕ) (to : RideStatus) (patch : Ride → Ride)
    (event_type : String) where
  -- A transition that throws has changed nothing: neither the ride nor the outbox.
  pub transition_as_atomic :
      (w : World) {x : Failure}
      → (transition_as ride_id to patch event_type w).0 ≡ err x
      → (transition_as ride_id to patch event_type w).1 ≡ w
  unfolding transition_as get_ride commit_transition update_ride write_ride_event
  transition_as_atomic w e = ground arith

  hit :
      (r : Ride)
      → r.id == ride_id ≡ true
      → (r.id == ride_id && same_status r.status r.status) ≡ true
  hit r e = rw (e, same_status_refl r.status)

  commit_finds :
      (w : World) (r : Ride)
      → ride_row w ride_id ≡ some r
      → find (λ s. s.id == ride_id && same_status s.status r.status) (pf.rows w.rides) ≡ some r
  commit_finds w r e =
      find-narrow (λ s. s.id == ride_id) _ (pf.rows w.rides) (λ s h. ground arith) e
        (hit r (find-satisfies (λ s. s.id == ride_id) (pf.rows w.rides) e))

  -- The state after a transition of the ride `r`.
  after : World → Ride → World
  after w r =
      (write_ride_event event_type (changed_ride to patch w.now r).id
        (transition_payload (changed_ride to patch w.now r))
        (update_ride ride_id r.status to patch w).1).1

  transition_as-after :
      (w : World) (r : Ride)
      → ride_row w ride_id ≡ some r
      → allows_transition r.status to ≡ true
      → transition_as ride_id to patch event_type w
        ≡ (ok (changed_ride to patch w.now r), after w r)
  unfolding transition_as get_ride commit_transition update_ride write_ride_event after
  transition_as-after w r e legal = ground (arith, commit_finds w r e)

  ride_row-after :
      (w : World) (r : Ride)
      → ((s : Ride) → (patch s).id ≡ s.id)
      → ride_row w ride_id ≡ some r
      → ride_row (after w r) ride_id ≡ some (changed_ride to patch w.now r)
  unfolding after write_ride_event
  ride_row-after w r keeps e = rw (
    ride_row-update_ride ride_id ride_id r.status to patch w keeps,
    e,
    hit r (find-satisfies (λ s. s.id == ride_id) (pf.rows w.rides) e),
  )

  outbox-after :
      (w : World) (r : Ride)
      → let s = changed_ride to patch w.now r in
        pf.rows (after w r).outbox_events
        ≡ pf.rows w.outbox_events
          ++ outbox_row w.next_id w.now event_type s.id (transition_payload s) ∷ []
  unfolding after write_ride_event update_ride
  outbox-after w r = pf.rows-insert _ w.outbox_events

  -- A legal transition of a ride, with no other action in between, succeeds: it returns the changed
  -- row, leaves that row in the table, and writes its one event to the outbox.
  pub transition_as_commits :
      (w : World) (r : Ride)
      → ((s : Ride) → (patch s).id ≡ s.id)
      → ride_row w ride_id ≡ some r
      → allows_transition r.status to ≡ true
      → let (result, w') = transition_as ride_id to patch event_type w in
        let s = changed_ride to patch w.now r in
        (result ≡ ok s)
        × (ride_row w' ride_id ≡ some s)
        × (pf.rows w'.outbox_events
            ≡ pf.rows w.outbox_events
              ++ outbox_row w.next_id w.now event_type s.id (transition_payload s) ∷ [])
  transition_as_commits w r keeps e legal =
      rw (transition_as-after w r e legal) (refl, ride_row-after w r keeps e, outbox-after w r)

module _ ⦃pf : Platform⦄ (ride_id : ℕ) (observed to : RideStatus) where
  commit_transition-update_ride :
      (patch : Ride → Ride) (event_type : String) (w : World) {r : Ride}
      → (commit_transition ride_id observed to patch event_type w).0 ≡ ok r
      → (commit_transition ride_id observed to patch event_type w).1.rides
        ≡ (update_ride ride_id observed to patch w).1.rides
  unfolding commit_transition write_ride_event update_ride
  commit_transition-update_ride patch event_type w e = ground arith

  abbrev hits : Ride → Bool
  hits r = r.id == ride_id && same_status r.status observed

  pub commit_transition_conflict :
      (patch : Ride → Ride) (event_type : String) (w : World)
      → find hits (pf.rows w.rides) ≡ none
      → commit_transition ride_id observed to patch event_type w ≡ (err Failure.conflict, w)
  unfolding commit_transition update_ride
  commit_transition_conflict patch event_type w e = ground arith

  update_ride-misses :
      (patch : Ride → Ride) (w : World)
      → to ≢ observed
      → find hits (pf.rows (update_ride ride_id observed to patch w).1.rides) ≡ none
  unfolding update_ride changed_ride
  update_ride-misses patch w new = rw (pf.rows-update _ _ w.rides) (
      find-map_where-none hits _ (pf.rows w.rides) (λ r h.
        elim (Bool-cases (same_status to observed)) [
          | inl same ↦ absurd (new ((same_status_iff to observed).0 same))
          | inr other ↦ ground arith
        ]))

module _ ⦃pf : Platform⦄ (ride_id : ℕ) (observed to : RideStatus) where
  -- Two requests that have read the same status of a ride race to change it: once the first has
  -- changed the status, the second gets a conflict, and changes nothing, whatever it wants to do.
  pub commit_transition_race :
      (patch : Ride → Ride) (event_type : String) (w : World) {r : Ride}
      → (late_to : RideStatus) (late_patch : Ride → Ride) (late_event_type : String) → to ≢ observed
      → (commit_transition ride_id observed to patch event_type w).0 ≡ ok r
      → let w' = (commit_transition ride_id observed to patch event_type w).1 in
        commit_transition ride_id observed late_to late_patch late_event_type w'
        ≡ (err Failure.conflict, w')
  commit_transition_race patch event_type w late_to late_patch late_event_type new e =
      commit_transition_conflict ride_id observed late_to late_patch late_event_type _ (
        rw (commit_transition-update_ride ride_id observed to patch event_type w e)
          (update_ride-misses ride_id observed to patch w new))
