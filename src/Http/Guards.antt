-- ===== src/Http/Guards.antt =====
-- The guards of the routes: src/common/auth/jwt-auth.guard.ts, src/common/auth/roles.guard.ts and
-- src/modules/rides/guards/ride-participant.guard.ts. Verifying a JWT is a parameter.
use Prim.Native.String.{String, slice, len}
use text.Mathlib.Text.{starts_with}
use obbian_ribe_booking_app.Base.{
  ℕ, ◌≡◌, ◌↔◌, ◌⊎◌, refl, ◌==◌, Bool, true, false, Bool-cases, Option-cases, inl, inr, arith, ap,
  sym, ◌∙◌, not, ◌||◌, Option, none, some, List, [], ◌∷◌, if◌then◌else◌,
}
use obbian_ribe_booking_app.Platform.{Platform}
use obbian_ribe_booking_app.World.{
  World, Action, ◌>>=◌, ◌>>◌, pure, throw, throw_if, or_throw, gets, Failure, ok, resume,
}
use obbian_ribe_booking_app.World.Inversion.{resume_ok}
use obbian_ribe_booking_app.Schema.{Ride, UserRole}
use obbian_ribe_booking_app.Auth.Token.{JwtPayload}
use obbian_ribe_booking_app.Rides.Service.{get_ride}
use obbian_ribe_booking_app.Rides.Lifecycle.History.{ride_row}

abbrev same_role : UserRole → UserRole → Bool
same_role UserRole.rider UserRole.rider = true
same_role UserRole.driver UserRole.driver = true
same_role UserRole.admin UserRole.admin = true
same_role _ _ = false

unfoldable pub includes_role : List UserRole → UserRole → Bool
includes_role [] role = false
includes_role (r ∷ rs) role = same_role r role || includes_role rs role

-- The token in the header `authorization`.
unfoldable pub bearer_token : Option String → Option String
bearer_token none = none
bearer_token (some header) =
    if starts_with header "Bearer " then some (slice header 7 (len header)) else none

abbrev is_assigned : Option ℕ → ℕ → Bool
is_assigned none user_id = false
is_assigned (some d) user_id = d == user_id

unfoldable pub is_participant : Ride → ℕ → Bool
is_participant ride user_id = ride.rider_id == user_id || is_assigned ride.driver_id user_id

-- The parameter `rideId` of a route: not there or empty, no UUID, or the id of a ride.
pub data RideParam : Type 0 where
  missing malformed : RideParam
  ride_id : ℕ → RideParam

module _ ⦃pf : Platform⦄ where
  -- The payload that is put on the request.
  unfoldable pub jwt_auth_guard :
      (World → String → Option JwtPayload) → Bool → Option String → Action (Option JwtPayload)
  jwt_auth_guard verify is_public header = if is_public then pure none else (do
    token ← or_throw (bearer_token header) Failure.unauthorized
    verified ← gets (λ w. verify w token)
    payload ← or_throw verified Failure.unauthorized
    pure (some payload))

  unfoldable pub roles_guard : List UserRole → Option JwtPayload → Action Bool
  roles_guard [] user = pure true
  roles_guard (r ∷ rs) none = throw Failure.forbidden
  roles_guard (r ∷ rs) (some user) =
      throw_if (not (includes_role (r ∷ rs) user.role)) Failure.forbidden >> pure true

  unfoldable pub check_participant : RideParam → ℕ → Action Bool
  check_participant RideParam.missing sub = pure false
  check_participant RideParam.malformed sub = throw Failure.forbidden
  check_participant (RideParam.ride_id id) sub = do
    ride ← get_ride id
    throw_if (not (is_participant ride sub)) Failure.forbidden
    pure true

  unfoldable pub ride_participant_guard : Bool → Option JwtPayload → RideParam → Action Bool
  ride_participant_guard true user param = pure true
  ride_participant_guard false none param = pure false
  ride_participant_guard false (some user) param = check_participant param user.sub

  abbrev admit : RideParam → Option JwtPayload → Action Bool
  admit param user = do
    allowed ← roles_guard [] user
    if allowed then ride_participant_guard false user param else pure false

  -- The three guards of a route for the participants of a ride. None of these routes is public or
  -- needs a role.
  unfoldable pub guarded :
      (World → String → Option JwtPayload) → Option String → RideParam → Action Bool
  guarded verify header param = jwt_auth_guard verify false header >>= admit param

  jwt_auth_guard_ok :
      (verify : World → String → Option JwtPayload) (header : Option String) (w : World)
      {found : Option JwtPayload}
      → (jwt_auth_guard verify false header w).0 ≡ ok found
      → (token : String) × (user : JwtPayload) × ((bearer_token header ≡ some token)
          × (verify w token ≡ some user)
          × (jwt_auth_guard verify false header w ≡ (ok (some user), w)))
  unfolding jwt_auth_guard
  jwt_auth_guard_ok verify header w done = elim (Option-cases (bearer_token header)) [
    | inl no_token ↦ absurd (ground arith)
    | inr (token, held) ↦ elim (Option-cases (verify w token)) [
      | inl bad ↦ absurd (ground arith)
      | inr (user, good) ↦ (token, user, (held, good, ground arith))
    ]
  ]

  check_participant_ok :
      (param : RideParam) (sub : ℕ) (w : World)
      → (check_participant param sub w).0 ≡ ok true
      → (id : ℕ) × (ride : Ride) × ((param ≡ RideParam.ride_id id)
          × (ride_row w id ≡ some ride)
          × (is_participant ride sub ≡ true))
  unfolding check_participant get_ride
  check_participant_ok RideParam.missing sub w done = absurd (ground arith)
  check_participant_ok RideParam.malformed sub w done = absurd (ground arith)
  check_participant_ok (RideParam.ride_id id) sub w done = elim (Option-cases (ride_row w id)) [
    | inl gone ↦ absurd (ground arith)
    | inr (ride, found) ↦ elim (Bool-cases (is_participant ride sub)) [
      | inl takes_part ↦ (id, ride, (refl, found, takes_part))
      | inr stranger ↦ absurd (ground arith)
    ]
  ]

  -- Why a request passes the guards: its token, the user it is for, and the ride it names.
  pub record Admitted (verify : World → String → Option JwtPayload) (header : Option String)
      (param : RideParam) (w : World) : Type 0 where
    token : String
    user : JwtPayload
    id : ℕ
    ride : Ride
    held : bearer_token header ≡ some token
    verified : verify w token ≡ some user
    named : param ≡ RideParam.ride_id id
    there : ride_row w id ≡ some ride
    takes_part : (ride.rider_id ≡ user.sub) ⊎ (ride.driver_id ≡ some user.sub)

  is_participant_iff :
      (ride : Ride) (user_id : ℕ)
      → (is_participant ride user_id ≡ true)
        ↔ ((ride.rider_id ≡ user_id) ⊎ (ride.driver_id ≡ some user_id))
  unfolding is_participant
  is_participant_iff ride user_id = elim (Option-cases ride.driver_id) [
    | inl e ↦ (λ h. ground arith, λ h. ground arith)
    | inr (d, e) ↦ (λ h. ground arith, λ h. ground arith)
  ]

  guarded-Admitted :
      (verify : World → String → Option JwtPayload) (header : Option String) (param : RideParam)
      (w : World)
      → (guarded verify header param w).0 ≡ ok true
      → Admitted verify header param w
  unfolding guarded roles_guard ride_participant_guard
  guarded-Admitted verify header param w allowed =
      let r = jwt_auth_guard verify false header w in
      let (found, authenticated, rest) = resume_ok r.0 (admit param) r.1 allowed in
      let (token, user, (held, good, same)) = jwt_auth_guard_ok verify header w authenticated in
      let checked : (check_participant param user.sub w).0 ≡ ok true =
        ap (λ r. (resume r.0 (admit param) r.1).0) (sym same) ∙ allowed in
      let (id, ride, (named, there, takes_part)) = check_participant_ok param user.sub w checked in
      record {
        token = token;
        user = user;
        id = id;
        ride = ride;
        held = held;
        verified = good;
        named = named;
        there = there;
        takes_part = (is_participant_iff ride user.sub).0 takes_part;
      }

  -- Who takes part in a ride gets through.
  pub guarded_participant :
      (verify : World → String → Option JwtPayload) (header : Option String) (token : String)
      (user : JwtPayload) (id : ℕ) (ride : Ride) (w : World)
      → bearer_token header ≡ some token
      → verify w token ≡ some user
      → ride_row w id ≡ some ride
      → is_participant ride user.sub ≡ true
      → guarded verify header (RideParam.ride_id id) w ≡ (ok true, w)
  unfolding guarded jwt_auth_guard roles_guard ride_participant_guard check_participant get_ride
  guarded_participant verify header token user id ride w held known there takes_part = ground arith

  -- The three guards of a route of a ride, which names no roles, let a request through exactly if
  -- its bearer token verifies to a user who is the rider or the driver of the ride in the table
  -- that the route names.
  pub guarded_lem :
      (verify : World → String → Option JwtPayload) (header : Option String) (param : RideParam)
      (w : World)
      → ((guarded verify header param w).0 ≡ ok true) ↔ Admitted verify header param w
  guarded_lem verify header param w = (
    guarded-Admitted verify header param w,
    λ a. rw a.named (
        ap (λ r. r.0)
          (guarded_participant verify header a.token a.user a.id a.ride w a.held a.verified a.there
            ((is_participant_iff a.ride a.user.sub).1 a.takes_part))),
  )
