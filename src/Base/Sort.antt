-- ===== src/Base/Sort.antt =====
-- Sorting as ORDER BY and Array.sort do it: elements of which neither comes before the other keep their order.
use Prim.Native.Nat.{ℕ, zero, suc}
use native.Mathlib.Omega.{arith}
use mathlib.Core.Path.{◌≡◌, refl, ◌∙◌}
use mathlib.Core.Bool.{Bool, true, false}
use mathlib.Core.Logic.{inl, inr}
use mathlib.Core.List.{List, [], ◌∷◌, map}
use obbian_ribe_booking_app.Base.Lists.{take, drop, All, length, select}
use obbian_ribe_booking_app.Base.Tests.{if◌then◌else◌, Bool-cases}

module _ {ℓ} {A : Type ℓ} (before : A → A → Bool) where
  abbrev pub insert_by : A → List A → List A
  insert_by x [] = x ∷ []
  insert_by x (y ∷ ys) = let rest = insert_by x ys in if before y x then y ∷ rest else x ∷ y ∷ ys

  unfoldable pub sort_by : List A → List A
  sort_by [] = []
  sort_by (x ∷ xs) = insert_by x (sort_by xs)

  -- No element comes before an earlier one.
  abbrev pub NoneBefore : A → List A → Type 0
  NoneBefore x [] = Unit
  NoneBefore x (y ∷ ys) = (before y x ≡ false) × NoneBefore x ys

  abbrev pub IsSorted : List A → Type 0
  IsSorted [] = Unit
  IsSorted (x ∷ xs) = NoneBefore x xs × IsSorted xs

  module _ (asym : (x y : A) → before x y ≡ true → before y x ≡ false)
      (neg_trans : (x y z : A) → before x y ≡ false → before y z ≡ false → before x z ≡ false) where
    NoneBefore-trans :
        (x y : A) (ys : List A) → before y x ≡ false → NoneBefore y ys → NoneBefore x ys
    NoneBefore-trans x y [] e h = tt
    NoneBefore-trans x y (z ∷ zs) e h = (neg_trans z y x h.0 e, NoneBefore-trans x y zs e h.1)

    insert_by-NoneBefore :
        (x y : A) (ys : List A)
        → before y x ≡ false
        → NoneBefore x ys
        → NoneBefore x (insert_by y ys)
    insert_by-NoneBefore x y [] e h = (e, tt)
    insert_by-NoneBefore x y (z ∷ zs) e h = elim (Bool-cases (before z y)) [
      | inl first ↦ rw first (h.0, insert_by-NoneBefore x y zs e h.1)
      | inr later ↦ rw later (e, h)
    ]

    insert_by-IsSorted : (x : A) (ys : List A) → IsSorted ys → IsSorted (insert_by x ys)
    insert_by-IsSorted x [] h = (tt, tt)
    insert_by-IsSorted x (y ∷ ys) h = elim (Bool-cases (before y x)) [
      | inl first ↦
          rw first (insert_by-NoneBefore y x ys (asym y x first) h.0, insert_by-IsSorted x ys h.1)
      | inr later ↦ rw later ((later, NoneBefore-trans x y ys later h.0), h)
    ]

    pub sort_by-IsSorted : (xs : List A) → IsSorted (sort_by xs)
    unfolding sort_by
    sort_by-IsSorted [] = tt
    sort_by-IsSorted (x ∷ xs) = insert_by-IsSorted x (sort_by xs) (sort_by-IsSorted xs)

  insert_by-All {κ} :
      (P : A → Type κ) (x : A) (ys : List A) → P x → All P ys → All P (insert_by x ys)
  insert_by-All P x [] h k = (h, tt)
  insert_by-All P x (y ∷ ys) h k = elim (Bool-cases (before y x)) [
    | inl first ↦ rw first (k.0, insert_by-All P x ys h k.1)
    | inr later ↦ rw later (h, k)
  ]

  pub sort_by-All {κ} : (P : A → Type κ) (xs : List A) → All P xs → All P (sort_by xs)
  unfolding sort_by
  sort_by-All P [] h = tt
  sort_by-All P (x ∷ xs) h = insert_by-All P x (sort_by xs) h.0 (sort_by-All P xs h.1)

  length-select-insert_by :
      (p : A → Bool) (x : A) (ys : List A)
      → length (select p (insert_by x ys)) ≡ length (select p (x ∷ ys))
  unfolding select
  length-select-insert_by p x [] = refl
  length-select-insert_by p x (y ∷ ys) = elim (Bool-cases (before y x)) [
    | inl first ↦ rw first (elim (Bool-cases (p x)) [
      | inl e ↦ ground (arith, length-select-insert_by p x ys)
      | inr e ↦ ground (arith, length-select-insert_by p x ys)
    ])
    | inr later ↦ rw later refl
  ]

  -- Sorting keeps how many elements pass any test.
  pub length-select-sort_by :
      (p : A → Bool) (xs : List A) → length (select p (sort_by xs)) ≡ length (select p xs)
  unfolding sort_by select
  length-select-sort_by p [] = refl
  length-select-sort_by p (x ∷ xs) =
      length-select-insert_by p x (sort_by xs) ∙ ground (arith, length-select-sort_by p xs)

  pub IsSorted-take : (n : ℕ) (xs : List A) → IsSorted xs → IsSorted (take n xs)
  unfolding take
  IsSorted-take zero xs h = tt
  IsSorted-take (suc n) [] h = tt
  IsSorted-take (suc n) (x ∷ xs) h = (NoneBefore-take x n xs h.0, IsSorted-take n xs h.1)
    where
      NoneBefore-take : (x : A) (n : ℕ) (xs : List A) → NoneBefore x xs → NoneBefore x (take n xs)
      NoneBefore-take x zero xs h = tt
      NoneBefore-take x (suc n) [] h = tt
      NoneBefore-take x (suc n) (y ∷ ys) h = (h.0, NoneBefore-take x n ys h.1)

  pub IsSorted-drop : (n : ℕ) (xs : List A) → IsSorted xs → IsSorted (drop n xs)
  unfolding drop
  IsSorted-drop zero xs h = h
  IsSorted-drop (suc n) [] h = tt
  IsSorted-drop (suc n) (x ∷ xs) h = IsSorted-drop n xs h.1

-- A map that keeps the order keeps what is sorted.
module _ {ℓ κ} {A : Type ℓ} {B : Type κ} (before : A → A → Bool) (before' : B → B → Bool)
    (f : A → B) (same : (x y : A) → before' (f x) (f y) ≡ before x y) where
  NoneBefore-map :
      (x : A) (ys : List A) → NoneBefore before x ys → NoneBefore before' (f x) (map f ys)
  NoneBefore-map x [] h = tt
  NoneBefore-map x (y ∷ ys) h = (same y x ∙ h.0, NoneBefore-map x ys h.1)

  pub IsSorted-map : (xs : List A) → IsSorted before xs → IsSorted before' (map f xs)
  IsSorted-map [] h = tt
  IsSorted-map (x ∷ xs) h = (NoneBefore-map x xs h.0, IsSorted-map xs h.1)

pub length-select-map {ℓ κ} :
    {A : Type ℓ} {B : Type κ} (p : B → Bool) (f : A → B) (xs : List A)
    → length (select p (map f xs)) ≡ length (select (λ x. p (f x)) xs)
unfolding select
length-select-map p f [] = refl
length-select-map p f (x ∷ xs) = elim (Bool-cases (p (f x))) [
  | inl e ↦ ground (arith, length-select-map p f xs)
  | inr e ↦ ground (arith, length-select-map p f xs)
]
