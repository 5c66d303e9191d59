-- ===== src/Rides/Lifecycle/History.antt =====
-- The history of a ride: whatever the operations do, its status moves along the diagram.
use Prim.Native.String.{String}
use mathlib.Core.Option
use obbian_ribe_booking_app.Base.{
  ℕ, ◌==◌, ◌≡◌, refl, ap, Bool, true, false, ◌&&◌, Option, none, some, find, find-map_where,
  if◌then◌else◌, arith, inl, inr, Bool-cases,
}
use obbian_ribe_booking_app.Platform.{Platform}
use obbian_ribe_booking_app.World.{
  World, Action, ◌>>=◌, ◌>>◌, pure, Outcome, ok, err, resume, rollback, transaction, throw_if,
  or_throw, Failure,
}
use obbian_ribe_booking_app.Schema.{
  Ride, RideStatus, RideEventPayload, same_status, same_status_iff,
}
use obbian_ribe_booking_app.Rides.StateMachine.{allows_transition}
use obbian_ribe_booking_app.Rides.StateMachine.Graph.{
  Reach, Reach-trans, here, allows_transition-Reach,
}
use obbian_ribe_booking_app.Rides.Service.{
  get_ride, update_ride, commit_transition, transition_as, write_ride_event, changed_ride,
}

and-right : (a b : Bool) → (a && b) ≡ true → b ≡ true
and-right a b h = ground arith

module _ ⦃pf : Platform⦄ where
  abbrev pub ride_row : World → ℕ → Option Ride
  ride_row w ride_id = find (λ r. r.id == ride_id) (pf.rows w.rides)

  -- Every ride of the first state is in the second, with a status that the diagram reaches.
  abbrev pub Evolves : World → World → Type 0
  Evolves v w =
      (ride_id : ℕ) (r : Ride)
      → ride_row v ride_id ≡ some r
      → (s : Ride) × (ride_row w ride_id ≡ some s) × Reach r.status s.status

  pub Evolves-refl : (w : World) → Evolves w w
  Evolves-refl w ride_id r e = (r, e, here)

  pub Evolves-trans : (u v w : World) → Evolves u v → Evolves v w → Evolves u w
  Evolves-trans u v w f g ride_id r e =
      let (s, at_s, to_s) = f ride_id r e in
      let (t, at_t, to_t) = g ride_id s at_s in (t, at_t, Reach-trans to_s to_t)

  -- The row of a ride after the conditional update.
  pub ride_row-update_ride :
      (ride_id observed_id : ℕ) (observed to : RideStatus) (patch : Ride → Ride) (w : World)
      → ((r : Ride) → (patch r).id ≡ r.id)
      → ride_row (update_ride ride_id observed to patch w).1 observed_id
        ≡ Option.map
            (λ r.
              if r.id == ride_id && same_status r.status observed
              then changed_ride to patch w.now r
              else r)
            (ride_row w observed_id)
  unfolding update_ride changed_ride
  ride_row-update_ride ride_id observed_id observed to patch w keeps =
      rw (pf.rows-update _ _ w.rides) (
        find-map_where (λ r. r.id == observed_id) _ _ (pf.rows w.rides)
          (λ r. ap (λ i. i == observed_id) (keeps r)))

  pub update_ride-Evolves :
      (ride_id : ℕ) (observed to : RideStatus) (patch : Ride → Ride) (w : World)
      → ((r : Ride) → (patch r).id ≡ r.id)
      → allows_transition observed to ≡ true
      → Evolves w (update_ride ride_id observed to patch w).1
  unfolding changed_ride
  update_ride-Evolves ride_id observed to patch w keeps legal i r e =
      let row = ride_row-update_ride ride_id i observed to patch w keeps in
      elim (Bool-cases (r.id == ride_id && same_status r.status observed)) [
        | inl hit ↦ (
          changed_ride to patch w.now r,
          rw (row, e, hit) refl,
          rw
              ((same_status_iff r.status observed).0
                (and-right (r.id == ride_id) (same_status r.status observed) hit))
              (allows_transition-Reach observed to legal),
        )
        | inr miss ↦ (r, rw (row, e, miss) refl, here)
      ]

  -- An action after which every ride has moved along the diagram, whatever the state.
  pub record Keeps {A : Type 0} (m : Action A) : Type 0 where
    pub evolves : (w : World) → Evolves w (m w).1

  pub Keeps-same : {A : Type 0} (m : Action A) → ((w : World) → (m w).1.rides ≡ w.rides) → Keeps m
  Keeps-same m same = record { evolves = λ w i r e. (r, rw (same w) e, here) }

  pub Keeps-pure : {A : Type 0} (a : A) → Keeps (pure a)
  Keeps-pure a = record { evolves = Evolves-refl }

  pub Keeps->>= :
      {A B : Type 0} (m : Action A) (f : A → Action B)
      → Keeps m
      → ((a : A) → Keeps (f a))
      → Keeps (m >>= f)
  Keeps->>= {A} {B} m f km kf = record { evolves = λ w. go w (m w).0 (m w).1 (km.evolves w) }
    where
      go : (w : World) (o : Outcome A) (v : World) → Evolves w v → Evolves w (resume o f v).1
      go w (ok a) v ev = Evolves-trans w v (f a v).1 ev ((kf a).evolves v)
      go w (err x) v ev = ev

  pub Keeps-guard :
      {B : Type 0} (test : Bool) (x : Failure) (k : Action B)
      → (test ≡ false → Keeps k)
      → Keeps (throw_if test x >> k)
  Keeps-guard true x k h = record { evolves = Evolves-refl }
  Keeps-guard false x k h = record { evolves = (h refl).evolves }

  pub Keeps-transaction : {A : Type 0} (m : Action A) → Keeps m → Keeps (transaction m)
  Keeps-transaction {A} m km = record { evolves = λ w. go w (m w).0 (m w).1 (km.evolves w) }
    where
      go : (w : World) (o : Outcome A) (v : World) → Evolves w v → Evolves w (rollback o w v).1
      go w (ok a) v ev = ev
      go w (err x) v ev = Evolves-refl w

  pub get_ride-Keeps : (ride_id : ℕ) → Keeps (get_ride ride_id)
  unfolding get_ride
  get_ride-Keeps ride_id = Keeps-same (get_ride ride_id) (λ w. ground arith)

  pub write_ride_event-Keeps :
      (event_type : String) (i : ℕ) (p : RideEventPayload) → Keeps (write_ride_event event_type i p)
  unfolding write_ride_event
  write_ride_event-Keeps event_type i p = Keeps-same (write_ride_event event_type i p) (λ w. refl)

  pub or_throw-Keeps : {A : Type 0} (o : Option A) (x : Failure) → Keeps (or_throw o x)
  or_throw-Keeps none x = record { evolves = Evolves-refl }
  or_throw-Keeps (some a) x = record { evolves = Evolves-refl }

  pub commit_transition-Keeps :
      (ride_id : ℕ) (observed to : RideStatus) (patch : Ride → Ride) (event_type : String)
      → ((r : Ride) → (patch r).id ≡ r.id)
      → allows_transition observed to ≡ true
      → Keeps (commit_transition ride_id observed to patch event_type)
  unfolding commit_transition
  commit_transition-Keeps ride_id observed to patch event_type keeps legal = Keeps-transaction _ (
      Keeps->>= _ _
        (record { evolves = λ w. update_ride-Evolves ride_id observed to patch w keeps legal })
        (λ row. Keeps->>= _ _ (or_throw-Keeps row Failure.conflict) (λ updated.
          Keeps->>= _ _ (write_ride_event-Keeps event_type _ _) (λ _. Keeps-pure updated))))

  pub transition_as-Keeps :
      (ride_id : ℕ) (to : RideStatus) (patch : Ride → Ride) (event_type : String)
      → ((r : Ride) → (patch r).id ≡ r.id)
      → Keeps (transition_as ride_id to patch event_type)
  unfolding transition_as
  transition_as-Keeps ride_id to patch event_type keeps =
      Keeps->>= _ _ (get_ride-Keeps ride_id) (λ ride. Keeps-guard _ _ _ (λ legal.
        commit_transition-Keeps ride_id ride.status to patch event_type keeps (ground arith)))
