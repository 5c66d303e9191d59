-- ===== src/Users/Laws.antt =====
-- Users who come back, and saved locations that are listed (src/modules/users/services/users.service.ts).
use Prim.Native.String.{String}
use text.Mathlib.Text.{◌==◌ as same_text}
use text.Mathlib.TextPositions.{eq_refl}
use obbian_ribe_booking_app.Base.{
  ℕ, ◌≤◌, ◌≡◌, refl, ap, ◌∙◌, ◌==◌, ==-refl, Bool, true, false, Option, none, some, List, [], ◌∷◌,
  ◌++◌, ltb, find, find-append, select, arith, Bool-cases, Option-cases, inl, inr,
}
use obbian_ribe_booking_app.Platform.{Platform}
use obbian_ribe_booking_app.World.{World, Outcome, ok, err}
use obbian_ribe_booking_app.Schema.{User, UserRole, SavedLocation}
use obbian_ribe_booking_app.Users.Service.{
  find_or_create, find_by_phone, create_user, new_user, insert_user, later_first, by_creation,
  list_saved_locations, save_location, new_location, SavedLocationInput,
}

module _ ⦃pf : Platform⦄ where
  abbrev phone_row : World → String → Option User
  phone_row w phone = find (λ u. same_text u.phone_number phone) (pf.rows w.users)

  find_or_create_known :
      (phone : String) (role : UserRole) (w : World) (user : User)
      → phone_row w phone ≡ some user
      → find_or_create phone role w ≡ (ok user, w)
  unfolding find_or_create find_by_phone
  find_or_create_known phone role w user known = rw known refl

  find_or_create_new :
      (phone : String) (role : UserRole) (w : World)
      → phone_row w phone ≡ none
      → find_or_create phone role w
        ≡ (ok (new_user phone role w), insert_user (new_user phone role w) w)
  unfolding find_or_create find_by_phone create_user
  find_or_create_new phone role w unknown = ground arith

  phone_row-insert_user :
      (phone : String) (role : UserRole) (w : World)
      → phone_row w phone ≡ none
      → phone_row (insert_user (new_user phone role w) w) phone ≡ some (new_user phone role w)
  unfolding new_user
  phone_row-insert_user phone role w unknown =
      rw
        (
          pf.rows-insert (new_user phone role w) w.users,
          find-append (λ u. same_text u.phone_number phone) (pf.rows w.users)
              (new_user phone role w),
          unknown,
          eq_refl phone,
        )
        refl

  -- Asking for the user of a phone always succeeds, and asking again, for whatever role, gives the same user and changes nothing.
  pub find_or_create_twice :
      (phone : String) (role other : UserRole) (w : World)
      → let (result, v) = find_or_create phone role w in
        (user : User) × (result ≡ ok user) × (find_or_create phone other v ≡ (ok user, v))
  find_or_create_twice phone role other w = elim (Option-cases (phone_row w phone)) [
    | inl unknown ↦ rw (find_or_create_new phone role w unknown) (
      new_user phone role w,
      refl,
      find_or_create_known phone other (insert_user (new_user phone role w) w)
          (new_user phone role w) (phone_row-insert_user phone role w unknown),
    )
    | inr (user, known) ↦
        rw (find_or_create_known phone role w user known)
          (user, refl, find_or_create_known phone other w user known)
  ]

-- No location was created later than a time.
unfoldable pub AreBefore : ℕ → List SavedLocation → Type 0
AreBefore now [] = Unit
AreBefore now (l ∷ ls) = (l.created_at ≤ now) × AreBefore now ls

later_first_last :
    (l new : SavedLocation) (ls : List SavedLocation)
    → l.created_at ≤ new.created_at
    → later_first l (ls ++ new ∷ []) ≡ later_first l ls ++ new ∷ []
later_first_last l new [] h = ground arith
later_first_last l new (m ∷ ms) h = elim (Bool-cases (ltb m.created_at l.created_at)) [
  | inl older ↦ rw older (ap (λ rest. m ∷ rest) (later_first_last l new ms h))
  | inr newer ↦ rw newer refl
]

by_creation_last :
    (new : SavedLocation) (ls : List SavedLocation)
    → AreBefore new.created_at ls
    → by_creation (ls ++ new ∷ []) ≡ by_creation ls ++ new ∷ []
unfolding by_creation AreBefore
by_creation_last new [] before = refl
by_creation_last new (l ∷ ls) (h, before) =
    ap (later_first l) (by_creation_last new ls before) ∙ later_first_last l new (by_creation ls) h

select_other :
    (p : SavedLocation → Bool) (l : SavedLocation) (ls : List SavedLocation)
    → p l ≡ false
    → select p (ls ++ l ∷ []) ≡ select p ls
unfolding select
select_other p l [] missed = rw missed refl
select_other p l (k ∷ ks) missed = ground (arith, select_other p l ks missed)

select_last :
    (p : SavedLocation → Bool) (new : SavedLocation) (ls : List SavedLocation)
    → p new ≡ true
    → select p (ls ++ new ∷ []) ≡ select p ls ++ new ∷ []
unfolding select
select_last p new [] hit = rw hit refl
select_last p new (l ∷ ls) hit = elim (Bool-cases (p l)) [
  | inl yes_l ↦ rw yes_l (ap (λ rest. l ∷ rest) (select_last p new ls hit))
  | inr no_l ↦ rw no_l (select_last p new ls hit)
]

AreBefore-select :
    (now : ℕ) (p : SavedLocation → Bool) (ls : List SavedLocation)
    → AreBefore now ls
    → AreBefore now (select p ls)
unfolding AreBefore select
AreBefore-select now p [] before = tt
AreBefore-select now p (l ∷ ls) (h, before) = elim (Bool-cases (p l)) [
  | inl yes_l ↦ rw yes_l (h, AreBefore-select now p ls before)
  | inr no_l ↦ rw no_l (AreBefore-select now p ls before)
]

module _ ⦃pf : Platform⦄ where
  -- If no location is from the future, a location that a user saves is listed after those that
  -- were listed before, with a new id, the time and the label, place and address that the user
  -- gave; the list of no other user changes.
  pub list_saved_locations-save_location :
      (user_id : ℕ) (input : SavedLocationInput) (w : World) (old : List SavedLocation)
      → AreBefore w.now (pf.rows w.saved_locations)
      → (list_saved_locations user_id w).0 ≡ ok old
      → let w' = (save_location user_id input w).1 in
        ((list_saved_locations user_id w').0
          ≡ ok (
              old
              ++ record {
                id = w.next_id;
                user_id = user_id;
                label = input.label;
                lat = input.lat;
                lon = input.lon;
                address = input.address;
                created_at = w.now;
              }
                ∷ []))
        × ((other : ℕ)
            → (user_id == other) ≡ false
            → (list_saved_locations other w').0 ≡ (list_saved_locations other w).0)
  unfolding list_saved_locations save_location new_location
  list_saved_locations-save_location user_id input w old before listed =
      let hit : SavedLocation → Bool = λ l. l.user_id == user_id in
      let new = new_location user_id input w in
      let ls = pf.rows w.saved_locations in
      (
        ap (λ rows. ok (by_creation (select hit rows))) (pf.rows-insert new w.saved_locations)
            ∙ ap (λ rows. ok (by_creation rows)) (select_last hit new ls (==-refl user_id))
            ∙ ap ok (by_creation_last new (select hit ls) (AreBefore-select w.now hit ls before))
            ∙ ap (λ o. extend o new) listed,
        λ other differs.
            ap (λ rows. ok (by_creation (select (λ l. l.user_id == other) rows)))
              (pf.rows-insert new w.saved_locations)
            ∙ ap (λ rows. ok (by_creation rows))
                (select_other (λ l. l.user_id == other) new ls differs),
      )
    where
      extend : Outcome (List SavedLocation) → SavedLocation → Outcome (List SavedLocation)
      extend (ok ls) new = ok (ls ++ new ∷ [])
      extend (err e) new = err e
