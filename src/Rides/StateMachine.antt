-- ===== src/Rides/StateMachine.antt =====
-- src/modules/rides/state-machine/ride-state-machine.ts
pub mod Graph
use obbian_ribe_booking_app.Base.{Bool, true, false, ◌||◌, List, [], ◌∷◌}
use obbian_ribe_booking_app.Schema.{RideStatus, same_status}

-- The table TRANSITIONS.
unfoldable pub transitions : RideStatus → List RideStatus
transitions RideStatus.requested = RideStatus.matching ∷ RideStatus.cancelled ∷ []
transitions RideStatus.matching = RideStatus.accepted ∷ RideStatus.cancelled ∷ []
transitions RideStatus.accepted = RideStatus.arrived ∷ RideStatus.cancelled ∷ []
transitions RideStatus.arrived = RideStatus.in_progress ∷ RideStatus.cancelled ∷ []
transitions RideStatus.in_progress = RideStatus.completed ∷ RideStatus.cancelled ∷ []
transitions RideStatus.completed = []
transitions RideStatus.cancelled = []

-- `Array.includes`
abbrev includes : List RideStatus → RideStatus → Bool
includes [] s = false
includes (x ∷ xs) s = same_status x s || includes xs s

-- Whether assertTransition returns rather than throws.
unfoldable pub allows_transition : RideStatus → RideStatus → Bool
unfolding transitions same_status
allows_transition from to = same_status from to || includes (transitions from) to

unfoldable pub can_cancel : RideStatus → Bool
unfolding transitions same_status
can_cancel status = includes (transitions status) RideStatus.cancelled

unfoldable pub is_terminal : RideStatus → Bool
unfolding same_status
is_terminal status =
    same_status status RideStatus.completed || same_status status RideStatus.cancelled
