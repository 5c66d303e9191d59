-- ===== src/World/Inversion.antt =====
-- What follows from the success of a chain of actions.
use obbian_ribe_booking_app.Base.{◌≡◌, refl, ap, arith}
use obbian_ribe_booking_app.Platform.{Platform}
use obbian_ribe_booking_app.World.{World, Action, Outcome, ok, err, resume, ◌>>=◌}

module _ ⦃pf : Platform⦄ where
  -- A chain that succeeds has succeeded at its first step.
  pub resume_ok :
      {A B : Type 0} (o : Outcome A) (f : A → Action B) (v : World) {b : B}
      → (resume o f v).0 ≡ ok b
      → (a : A) × (o ≡ ok a) × ((f a v).0 ≡ ok b)
  resume_ok (ok a) f v h = (a, refl, h)
  resume_ok (err e) f v h = absurd (ground arith)

  -- A step that succeeds hands its result to the rest.
  pub then_rest :
      {A B : Type 0} (m : Action A) (f : A → Action B) {w v : World} {a : A}
      → m w ≡ (ok a, v)
      → (m >>= f) w ≡ f a v
  then_rest m f e = ap (λ r. resume r.0 f r.1) e
