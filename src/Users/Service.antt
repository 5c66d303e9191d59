-- ===== src/Users/Service.antt =====
-- src/modules/users/services/users.service.ts
use Prim.Native.String.{String}
use text.Mathlib.Text.{◌==◌ as same_text}
use obbian_ribe_booking_app.Base.{
  ℕ, ◌+◌, ◌==◌, false, Option, none, some, is_some, List, [], ◌∷◌, ltb, if◌then◌else◌, select, ℤ,
}
use obbian_ribe_booking_app.Platform.{Platform}
use obbian_ribe_booking_app.World.{
  World, Action, ◌>>=◌, ◌>>◌, pure, throw_if, gets, modify, select_one, Failure,
}
use obbian_ribe_booking_app.Schema.{User, UserRole, SavedLocation}

-- The fields of a profile that a request gives; the others stay.
pub record ProfileData : Type 0 where
  pub first_name : Option String
  pub last_name : Option String
  pub email : Option String
  pub profile_image_url : Option String

pub record SavedLocationInput : Type 0 where
  pub label : String
  pub lat : ℤ
  pub lon : ℤ
  pub address : Option String

abbrev given_or : Option String → Option String → Option String
given_or none old = old
given_or (some new) old = some new

unfoldable pub profile_patch : ProfileData → ℕ → User → User
profile_patch changes now u = record u {
  first_name = given_or changes.first_name u.first_name;
  last_name = given_or changes.last_name u.last_name;
  email = given_or changes.email u.email;
  profile_image_url = given_or changes.profile_image_url u.profile_image_url;
  updated_at = now;
}

abbrev pub later_first : SavedLocation → List SavedLocation → List SavedLocation
later_first l [] = l ∷ []
later_first l (m ∷ ms) =
    let rest = later_first l ms in if ltb m.created_at l.created_at then m ∷ rest else l ∷ m ∷ ms

-- ORDER BY createdAt
unfoldable pub by_creation : List SavedLocation → List SavedLocation
by_creation [] = []
by_creation (l ∷ ls) = later_first l (by_creation ls)

module _ ⦃pf : Platform⦄ where
  unfoldable pub find_by_phone : String → Action (Option User)
  find_by_phone phone = select_one (λ w. w.users) (λ u. same_text u.phone_number phone)

  unfoldable pub find_by_id : ℕ → Action (Option User)
  find_by_id id = select_one (λ w. w.users) (λ u. u.id == id)

  unfoldable pub new_user : String → UserRole → World → User
  new_user phone role w = record {
    id = w.next_id;
    phone_number = phone;
    email = none;
    first_name = none;
    last_name = none;
    profile_image_url = none;
    role = role;
    rating = 500;
    is_verified = false;
    last_login_at = none;
    created_at = w.now;
    updated_at = w.now;
  }

  abbrev pub insert_user : User → World → World
  insert_user user w = record w { users = pf.insert user w.users; next_id = w.next_id + 1 }

  -- The insertion breaks the constraint on phoneNumber if another row has it.
  unfoldable pub create_user : String → UserRole → Action User
  create_user phone role = do
    existing ← find_by_phone phone
    throw_if (is_some existing) Failure.internal
    user ← gets (new_user phone role)
    modify (insert_user user)
    pure user

  abbrev or_create : String → UserRole → Option User → Action User
  or_create phone role none = create_user phone role
  or_create phone role (some user) = pure user

  unfoldable pub find_or_create : String → UserRole → Action User
  find_or_create phone role = find_by_phone phone >>= or_create phone role

  abbrev update_user : ℕ → (User → User) → Action (Unit {0})
  update_user user_id f =
      modify (λ w. record w { users = pf.update (λ u. u.id == user_id) f w.users })

  unfoldable pub update_profile : ℕ → ProfileData → Action (Option User)
  update_profile user_id changes = gets (λ w. w.now) >>= λ now.
      update_user user_id (profile_patch changes now) >> find_by_id user_id

  unfoldable pub update_role : ℕ → UserRole → Action (Unit {0})
  update_role user_id role = gets (λ w. w.now) >>= λ now.
      update_user user_id (λ u. record u { role = role; updated_at = now })

  unfoldable pub mark_login : ℕ → Action (Unit {0})
  mark_login user_id =
      gets (λ w. w.now) >>= λ now. update_user user_id (λ u. record u { last_login_at = some now })

  unfoldable pub list_saved_locations : ℕ → Action (List SavedLocation)
  list_saved_locations user_id =
      gets (λ w. by_creation (select (λ l. l.user_id == user_id) (pf.rows w.saved_locations)))

  unfoldable pub new_location : ℕ → SavedLocationInput → World → SavedLocation
  new_location user_id input w = record {
    id = w.next_id;
    user_id = user_id;
    label = input.label;
    lat = input.lat;
    lon = input.lon;
    address = input.address;
    created_at = w.now;
  }

  abbrev insert_location : SavedLocation → World → World
  insert_location l w = record w {
    saved_locations = pf.insert l w.saved_locations;
    next_id = w.next_id + 1;
  }

  unfoldable pub save_location : ℕ → SavedLocationInput → Action SavedLocation
  save_location user_id input = do
    location ← gets (new_location user_id input)
    modify (insert_location location)
    pure location
