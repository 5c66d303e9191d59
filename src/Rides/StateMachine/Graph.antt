-- ===== src/Rides/StateMachine/Graph.antt =====
-- The transition diagram as a relation, and what reachability in it says.
use mathlib.Core.Bool.{false≢true}
use obbian_ribe_booking_app.Base.{
  ℕ, ◌≤◌, ◌<◌, ◌≡◌, ◌⊎◌, ◌↔◌, inl, inr, refl, sym, ◌∙◌, subst, true, false, not, arith,
}
use obbian_ribe_booking_app.Schema.{RideStatus, same_status}
use obbian_ribe_booking_app.Rides.StateMachine.{allows_transition, can_cancel, is_terminal}

-- One change of status along the diagram.
pub data Edge : RideStatus → RideStatus → Type 0 where
  match : Edge RideStatus.requested RideStatus.matching
  accept : Edge RideStatus.matching RideStatus.accepted
  arrive : Edge RideStatus.accepted RideStatus.arrived
  start : Edge RideStatus.arrived RideStatus.in_progress
  complete : Edge RideStatus.in_progress RideStatus.completed
  cancel : {s : RideStatus} → is_terminal s ≡ false → Edge s RideStatus.cancelled

-- Any number of changes.
pub data Reach : RideStatus → RideStatus → Type 0 where
  here : {s : RideStatus} → Reach s s
  then : {s t u : RideStatus} → Edge s t → Reach t u → Reach s u

pub ruleset edges = (match, accept, arrive, start, complete)

legal-Edge : (s t : RideStatus) → allows_transition s t ≡ true → (s ≡ t) ⊎ Edge s t
unfolding allows_transition is_terminal
legal-Edge RideStatus.requested t h = grind (arith, edges, cancel)
legal-Edge s t h = grind (arith, edges, cancel)

Edge-legal : {s t : RideStatus} → Edge s t → allows_transition s t ≡ true
unfolding allows_transition is_terminal
Edge-legal match = refl
Edge-legal accept = refl
Edge-legal arrive = refl
Edge-legal start = refl
Edge-legal complete = refl
Edge-legal (cancel h) = ground arith

self-legal : (s : RideStatus) → allows_transition s s ≡ true
unfolding allows_transition
self-legal s = ground arith

-- assertTransition accepts exactly the edges of the diagram, and the change of a status to itself.
pub allows_transition_iff :
    (s t : RideStatus) → (allows_transition s t ≡ true) ↔ ((s ≡ t) ⊎ Edge s t)
allows_transition_iff s t = (
  legal-Edge s t,
  elim [
    | inl e ↦ subst (λ u. allows_transition s u ≡ true) e (self-legal s)
    | inr e ↦ Edge-legal e
  ],
)

pub Reach-trans : {s t u : RideStatus} → Reach s t → Reach t u → Reach s u
Reach-trans here r = r
Reach-trans (then e q) r = then e (Reach-trans q r)

pub allows_transition-Reach : (s t : RideStatus) → allows_transition s t ≡ true → Reach s t
allows_transition-Reach s t h = elim (legal-Edge s t h) [
  | inl e ↦ subst (Reach s) e here
  | inr e ↦ then e here
]

-- A ride can be cancelled exactly while it is not over.
pub can_cancel-not-is_terminal : (s : RideStatus) → can_cancel s ≡ not (is_terminal s)
unfolding can_cancel is_terminal
can_cancel-not-is_terminal RideStatus.requested = refl
can_cancel-not-is_terminal _ = refl

-- How far a ride has come.
abbrev pub progress : RideStatus → ℕ
progress RideStatus.requested = 0
progress RideStatus.matching = 1
progress RideStatus.accepted = 2
progress RideStatus.arrived = 3
progress RideStatus.in_progress = 4
progress RideStatus.completed = 5
progress RideStatus.cancelled = 5

Edge-progress : {s t : RideStatus} → Edge s t → progress s < progress t
unfolding is_terminal same_status
Edge-progress match = omega arith
Edge-progress accept = omega arith
Edge-progress arrive = omega arith
Edge-progress start = omega arith
Edge-progress complete = omega arith
Edge-progress (cancel {s = s} h) = ground arith

pub Reach-progress : {s t : RideStatus} → Reach s t → progress s ≤ progress t
Reach-progress here = omega arith
Reach-progress (then e r) = omega (arith, Edge-progress e, Reach-progress r)

Edge-not-is_terminal : {s t : RideStatus} → Edge s t → is_terminal s ≡ false
unfolding is_terminal
Edge-not-is_terminal match = refl
Edge-not-is_terminal accept = refl
Edge-not-is_terminal arrive = refl
Edge-not-is_terminal start = refl
Edge-not-is_terminal complete = refl
Edge-not-is_terminal (cancel h) = h

-- A ride that is over stays as it is.
pub Reach-of_is_terminal : {s t : RideStatus} → Reach s t → is_terminal s ≡ true → t ≡ s
Reach-of_is_terminal here h = refl
Reach-of_is_terminal (then e r) h = absurd (false≢true (sym (Edge-not-is_terminal e) ∙ h))
