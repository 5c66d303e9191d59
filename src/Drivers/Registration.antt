-- ===== src/Drivers/Registration.antt =====
-- register of src/modules/drivers/services/drivers.service.ts.
use Prim.Native.String.{String}
use text.Mathlib.Text.{◌==◌ as same_text}
use obbian_ribe_booking_app.Base.{
  ℕ, ◌≡◌, refl, ap, sym, ◌∙◌, ◌==◌, ==-refl, Bool, true, false, ◌||◌, Option, none, some, is_some,
  find, find-append, find-map_where, find-satisfies, if◌then◌else◌, pos, arith,
}
use obbian_ribe_booking_app.Platform.{Platform}
use obbian_ribe_booking_app.World.{
  World, Action, ◌>>=◌, ◌>>◌, pure, gets, modify, select_one, throw_if, transaction, Failure,
  Outcome, ok, err,
}
use obbian_ribe_booking_app.Schema.{Driver, DriverStatus, RideType, User, UserRole}
use obbian_ribe_booking_app.Drivers.Service.Laws.{driver_row}
use obbian_ribe_booking_app.Users.Service.{update_role}

pub record RegisterDriver : Type 0 where
  pub license_number : String
  pub vehicle_registration : String
  pub vehicle_model : Option String
  pub vehicle_color : Option String
  pub vehicle_type : RideType
  pub upi_id : Option String

unfoldable pub new_driver : ℕ → RegisterDriver → ℕ → Driver
new_driver user_id input now = record {
  user_id = user_id;
  license_number = input.license_number;
  vehicle_registration = input.vehicle_registration;
  vehicle_model = input.vehicle_model;
  vehicle_color = input.vehicle_color;
  vehicle_type = input.vehicle_type;
  status = DriverStatus.offline;
  rating = 500;
  total_rides = 0;
  completion_rate = 10000;
  acceptance_rate = 10000;
  wallet_balance = pos 0;
  bank_account = none;
  upi_id = input.upi_id;
  last_location_update_at = none;
  online_since = none;
  created_at = now;
  updated_at = now;
}

-- Whether a row has a value of the new one in a unique column.
unfoldable pub clashes : Driver → Driver → Bool
clashes new d =
    same_text d.license_number new.license_number
    || same_text d.vehicle_registration new.vehicle_registration

module _ ⦃pf : Platform⦄ where
  abbrev insert_driver : Driver → World → World
  insert_driver d w = record w { drivers = pf.insert d w.drivers }

  -- The two writes. The insertion breaks a constraint if a unique value is taken.
  unfoldable pub write_registration : ℕ → RegisterDriver → Action Driver
  write_registration user_id input = do
    new ← gets (λ w. new_driver user_id input w.now)
    taken ← select_one (λ w. w.drivers) (clashes new)
    throw_if (is_some taken) Failure.internal
    modify (insert_driver new)
    update_role user_id UserRole.driver
    pure new

  unfoldable pub register : ℕ → RegisterDriver → Action Driver
  register user_id input = do
    existing ← select_one (λ w. w.drivers) (λ d. d.user_id == user_id)
    throw_if (is_some existing) Failure.conflict
    transaction (write_registration user_id input)

  abbrev pub user_row : World → ℕ → Option User
  user_row w id = find (λ u. u.id == id) (pf.rows w.users)

  abbrev pub clash_row : ℕ → RegisterDriver → World → Option Driver
  clash_row user_id input w = find (clashes (new_driver user_id input w.now)) (pf.rows w.drivers)

  registered : ℕ → RegisterDriver → World → World
  registered user_id input w = record w {
    drivers = pf.insert (new_driver user_id input w.now) w.drivers;
    users =
        pf.update (λ u. u.id == user_id)
          (λ u. record u { role = UserRole.driver; updated_at = w.now }) w.users;
  }

  -- What a registration does, branch by branch.
  register_eq :
      (user_id : ℕ) (input : RegisterDriver) (w : World)
      → register user_id input w ≡ (
          if is_some (driver_row w user_id)
          then (err Failure.conflict, w)
          else (if is_some (clash_row user_id input w)
              then (err Failure.internal, w)
              else (ok (new_driver user_id input w.now), registered user_id input w)))
  unfolding register write_registration update_role registered
  register_eq user_id input w = ground arith

  -- A registration that fails, as one with a licence that is taken does, changes nothing.
  pub register_atomic :
      (user_id : ℕ) (input : RegisterDriver) (w : World) (e : Failure)
      → (register user_id input w).0 ≡ err e
      → (register user_id input w).1 ≡ w
  register_atomic user_id input w e refused = rw (register_eq user_id input w) (
      go (is_some (driver_row w user_id)) (is_some (clash_row user_id input w))
        (ap (λ r. r.0) (sym (register_eq user_id input w)) ∙ refused))
    where
      outcome : Bool → Bool → Outcome Driver × World
      outcome a b =
          if a
          then (err Failure.conflict, w)
          else (if b
              then (err Failure.internal, w)
              else (ok (new_driver user_id input w.now), registered user_id input w))

      go : (a b : Bool) → (outcome a b).0 ≡ err e → (outcome a b).1 ≡ w
      go true b h = refl
      go false true h = refl
      go false false h = absurd (ground arith)

  -- A user who has no driver profile and whose licence and vehicle no driver has is registered: the
  -- profile is in the table, offline, and the user has the role of a driver.
  pub register_lem :
      (user_id : ℕ) (input : RegisterDriver) (w : World) (u : User)
      → driver_row w user_id ≡ none
      → clash_row user_id input w ≡ none
      → user_row w user_id ≡ some u
      → let (result, v) = register user_id input w in
        (result ≡ ok (new_driver user_id input w.now))
        × (driver_row v user_id ≡ some (new_driver user_id input w.now))
        × (user_row v user_id ≡ some (record u { role = UserRole.driver; updated_at = w.now }))
  unfolding registered new_driver
  register_lem user_id input w u free unique known =
      let promote : User → User = λ u. record u { role = UserRole.driver; updated_at = w.now } in
      rw (register_eq user_id input w, free, unique)
        (
          refl,
          rw
              (
                pf.rows-insert (new_driver user_id input w.now) w.drivers,
                find-append (λ d. d.user_id == user_id) (pf.rows w.drivers)
                    (new_driver user_id input w.now),
                free,
                ==-refl user_id,
              )
              refl,
          rw
              (
                pf.rows-update (λ u. u.id == user_id) promote w.users,
                find-map_where (λ u. u.id == user_id) (λ u. u.id == user_id) promote
                    (pf.rows w.users) (λ u. refl),
                known,
                find-satisfies (λ u. u.id == user_id) (pf.rows w.users) known,
              )
              refl,
        )
