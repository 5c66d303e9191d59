-- ===== src/Matching/Assignment.antt =====
-- What the final match makes of a ride and of its driver.
use obbian_ribe_booking_app.Base.{
  ap, ◌∙◌, ℕ, ◌≡◌, ◌≢◌, refl, ◌==◌, true, false, none, some, find, Bool-cases, inl, inr, arith,
}
use obbian_ribe_booking_app.Platform.{Platform, RedisKey, same_key-claim}
use obbian_ribe_booking_app.World.{World, ok}
use obbian_ribe_booking_app.Schema.{
  Ride, RideStatus, Driver, DriverStatus, same_status, same_status_iff,
}
use obbian_ribe_booking_app.Drivers.Service.{
  update_status, status_patch, get_profile, remove_driver_position,
}
use obbian_ribe_booking_app.Drivers.Service.Laws.{driver_row, update_status_leaves}
use obbian_ribe_booking_app.Rides.StateMachine.{allows_transition}
use obbian_ribe_booking_app.Rides.Service.{
  get_ride, transition, transition_as, commit_transition, update_ride, write_ride_event,
  changed_ride, ride_event_type,
}
use obbian_ribe_booking_app.Rides.Lifecycle.History.{ride_row}
use obbian_ribe_booking_app.Rides.Lifecycle.Transition.{transition_as_commits}
use obbian_ribe_booking_app.Matching.Service.{
  begin_matching, assign_driver, finalize_match, is_matching, acceptance_patch, keep,
}
use obbian_ribe_booking_app.Matching.Claim.{claim_of}

pub acceptance-id : (driver_id now : ℕ) (r : Ride) → (acceptance_patch driver_id now r).id ≡ r.id
unfolding acceptance_patch
acceptance-id driver_id now r = refl

module _ ⦃pf : Platform⦄ where
  pub update_status-rides :
      (driver_id : ℕ) (status : DriverStatus) (w : World)
      → let w' = (update_status driver_id status w).1 in
        (w'.rides ≡ w.rides) × (w'.redis_up ≡ w.redis_up)
  unfolding update_status get_profile remove_driver_position
  update_status-rides driver_id status w = ground arith

module _ ⦃pf : Platform⦄ (ride_id : ℕ) where
  transition_frame :
      (to : RideStatus) (patch : Ride → Ride) (w : World)
      → let w' = (transition ride_id to patch w).1 in
        (w'.drivers ≡ w.drivers)
        × (w'.redis ≡ w.redis)
        × (w'.redis_up ≡ w.redis_up)
        × (w'.now ≡ w.now)
  unfolding transition transition_as get_ride commit_transition update_ride write_ride_event
  transition_frame to patch w = ground arith

  -- The ride as the driver's acceptance leaves it.
  unfoldable pub accepted_by : ℕ → ℕ → Ride → Ride
  accepted_by driver_id now r = record r {
    status = RideStatus.accepted;
    updated_at = now;
    driver_id = some driver_id;
    accepted_at = some now;
  }

  -- A state in which the ride has been given to the driver.
  pub record Assigned (driver_id : ℕ) (r : Ride) (d : Driver) (before after : World) : Type 0 where
    pub ride_accepted : ride_row after ride_id ≡ some (accepted_by driver_id before.now r)
    pub driver_on_ride :
        driver_row after driver_id ≡ some (status_patch DriverStatus.on_ride before.now d)
    pub off_pool : pf.indexed driver_id after.redis ≡ false
    pub claim_gone : claim_of ride_id after ≡ none

  assign_driver-eq :
      (driver_id : ℕ) (w : World) {s : Ride}
      → let change = transition ride_id RideStatus.accepted (acceptance_patch driver_id w.now) w in
        let moved = update_status driver_id DriverStatus.on_ride change.1 in
        change.0 ≡ ok s
        → moved.0 ≡ ok tt
        → moved.1.redis_up ≡ true
        → assign_driver ride_id driver_id w
          ≡ (ok tt, record moved.1 { redis = pf.del (RedisKey.claim ride_id) moved.1.redis })
  unfolding assign_driver
  assign_driver-eq driver_id w changed moved up = rw (changed, moved, up) refl

  on_ride-not-online : DriverStatus.on_ride ≢ DriverStatus.online
  on_ride-not-online e = cc

  assign_driver_lem :
      (driver_id : ℕ) (w : World) (r : Ride) (d : Driver)
      → w.redis_up ≡ true
      → ride_row w ride_id ≡ some r
      → allows_transition r.status RideStatus.accepted ≡ true
      → driver_row w driver_id ≡ some d
      → let (result, w') = assign_driver ride_id driver_id w in
        (result ≡ ok tt) × Assigned driver_id r d w w'
  unfolding transition accepted_by changed_ride acceptance_patch
  assign_driver_lem driver_id w r d up e legal row =
      let patch = acceptance_patch driver_id w.now in
      let (result, changed, event) =
        transition_as_commits ride_id RideStatus.accepted patch
          (ride_event_type RideStatus.accepted) w r (acceptance-id driver_id w.now) e legal in
      let change = (transition ride_id RideStatus.accepted patch w).1 in
      let (drivers, redis, same_up, now) = transition_frame RideStatus.accepted patch w in
      let (moved, on_ride, gone) =
        update_status_leaves driver_id DriverStatus.on_ride change on_ride-not-online (same_up ∙ up)
          (ap (λ t. find (λ d'. d'.user_id == driver_id) (pf.rows t)) drivers ∙ row) in
      let (rides, still_up) = update_status-rides driver_id DriverStatus.on_ride change in
      rw (assign_driver-eq driver_id w result moved (still_up ∙ same_up ∙ up)) (
        refl,
        record {
          ride_accepted = ap (λ t. find (λ r'. r'.id == ride_id) (pf.rows t)) rides ∙ changed;
          driver_on_ride = on_ride ∙ ap (λ t. some (status_patch DriverStatus.on_ride t d)) now;
          off_pool = pf.indexed-del driver_id (RedisKey.claim ride_id) _ ∙ gone;
          claim_gone =
              rw
                (
                  pf.get-del (update_status driver_id DriverStatus.on_ride change).1.now
                      (RedisKey.claim ride_id) (RedisKey.claim ride_id)
                      (update_status driver_id DriverStatus.on_ride change).1.redis,
                  same_key-claim ride_id,
                )
                refl;
        },
      )

  finalize_match-eq :
      (driver_id : ℕ) (w : World) (r : Ride)
      → ride_row w ride_id ≡ some r
      → is_matching r.status ≡ true
      → (begin_matching ride_id r.status w).0 ≡ ok tt
      → finalize_match ride_id driver_id w
        ≡ assign_driver ride_id driver_id (begin_matching ride_id r.status w).1
  unfolding finalize_match get_ride
  finalize_match-eq driver_id w r e matching begun = rw (e, matching, begun) refl

  -- The ride is in the status MATCHING, and will be accepted like `r`.
  record Begun (r : Ride) (before after : World) : Type 0 where
    ride : Ride
    row : ride_row after ride_id ≡ some ride
    legal : allows_transition ride.status RideStatus.accepted ≡ true
    like : (driver_id now : ℕ) → accepted_by driver_id now ride ≡ accepted_by driver_id now r
    drivers : after.drivers ≡ before.drivers
    up : after.redis_up ≡ before.redis_up
    now : after.now ≡ before.now

  legal_from :
      (s : RideStatus) → s ≡ RideStatus.requested → allows_transition s RideStatus.matching ≡ true
  unfolding allows_transition
  legal_from s e = rw e refl

  legal_to :
      (s : RideStatus) → s ≡ RideStatus.matching → allows_transition s RideStatus.accepted ≡ true
  unfolding allows_transition
  legal_to s e = rw e refl

  begin_requested :
      (w : World) (r : Ride)
      → ride_row w ride_id ≡ some r
      → same_status r.status RideStatus.requested ≡ true
      → let (result, w') = begin_matching ride_id r.status w in (result ≡ ok tt) × Begun r w w'
  unfolding begin_matching transition changed_ride accepted_by
  begin_requested w r e requested =
      let (result, row, event) =
        transition_as_commits ride_id RideStatus.matching keep (ride_event_type RideStatus.matching)
          w r (λ s. refl) e
          (legal_from r.status ((same_status_iff r.status RideStatus.requested).0 requested)) in
      let (drivers, redis, up, now) = transition_frame RideStatus.matching keep w in
      rw (requested, result)
        (
          refl,
          record {
            ride = changed_ride RideStatus.matching keep w.now r;
            row = row;
            legal = legal_to RideStatus.matching refl;
            like = λ driver_id now. refl;
            drivers = drivers;
            up = up;
            now = now;
          },
        )

  begin_matching_lem :
      (w : World) (r : Ride)
      → ride_row w ride_id ≡ some r
      → is_matching r.status ≡ true
      → let (result, w') = begin_matching ride_id r.status w in (result ≡ ok tt) × Begun r w w'
  unfolding begin_matching is_matching
  begin_matching_lem w r e matching =
      elim (Bool-cases (same_status r.status RideStatus.requested)) [
        | inl requested ↦ begin_requested w r e requested
        | inr other ↦ rw other (
          refl,
          record {
            ride = r;
            row = e;
            legal =
                legal_to r.status ((same_status_iff r.status RideStatus.matching).0 (ground arith));
            like = λ driver_id now. refl;
            drivers = refl;
            up = refl;
            now = refl;
          },
        )
      ]

  -- With Redis up, the final match of a ride that is REQUESTED or MATCHING with a registered driver
  -- succeeds: the ride is accepted by that driver, the driver is on a ride and no longer in the geo
  -- index, and the claim is gone.
  pub finalize_match_lem :
      (driver_id : ℕ) (w : World) (r : Ride) (d : Driver)
      → w.redis_up ≡ true
      → ride_row w ride_id ≡ some r
      → is_matching r.status ≡ true
      → driver_row w driver_id ≡ some d
      → let (result, w') = finalize_match ride_id driver_id w in
        (result ≡ ok tt) × Assigned driver_id r d w w'
  finalize_match_lem driver_id w r d up e matching row =
      let (begun, at) = begin_matching_lem w r e matching in
      let w1 = (begin_matching ride_id r.status w).1 in
      let (result, given) =
        assign_driver_lem driver_id w1 at.ride d (at.up ∙ up) at.row at.legal
          (ap (λ t. find (λ d'. d'.user_id == driver_id) (pf.rows t)) at.drivers ∙ row) in
      rw (finalize_match-eq driver_id w r e matching begun) (
        result,
        record {
          ride_accepted =
              given.ride_accepted
              ∙ ap (λ t. some (accepted_by driver_id t at.ride)) at.now
              ∙ ap some (at.like driver_id w.now);
          driver_on_ride =
              given.driver_on_ride ∙ ap (λ t. some (status_patch DriverStatus.on_ride t d)) at.now;
          off_pool = given.off_pool;
          claim_gone = given.claim_gone;
        },
      )
