-- ===== src/Base/Lists.antt =====
-- Lists over the native numbers: lengths, sums, and the searches that a query makes.
use Prim.Native.Nat.{ℕ, zero, suc, ◌+◌, ◌≤◌}
use mathlib.Core.Path.{◌≡◌, refl, ap, sym, ◌∙◌}
use mathlib.Core.Bool.{Bool, true, false}
use mathlib.Core.Logic.{inl, inr}
use mathlib.Core.Option.{Option, none, some}
use mathlib.Core.Option
use mathlib.Core.List.{List, [], ◌∷◌, ◌++◌}
use native.Mathlib.Omega.{arith}
use obbian_ribe_booking_app.Base.Tests.{if◌then◌else◌, Bool-cases}

module _ {ℓ} {A : Type ℓ} where
  abbrev pub length : List A → ℕ
  length [] = 0
  length (x ∷ xs) = suc (length xs)

  pub length-append : (xs ys : List A) → length (xs ++ ys) ≡ length xs + length ys
  length-append [] ys = omega arith
  length-append (x ∷ xs) ys = omega (arith, length-append xs ys)

  abbrev pub sum_by : (A → ℕ) → List A → ℕ
  sum_by f [] = 0
  sum_by f (x ∷ xs) = f x + sum_by f xs

  pub sum_by-append : (f : A → ℕ) (xs ys : List A) → sum_by f (xs ++ ys) ≡ sum_by f xs + sum_by f ys
  sum_by-append f [] ys = omega arith
  sum_by-append f (x ∷ xs) ys = omega (arith, sum_by-append f xs ys)

  -- The first element that passes the test.
  unfoldable pub find : (A → Bool) → List A → Option A
  find p [] = none
  find p (x ∷ xs) = if p x then some x else find p xs

  -- The elements that pass the test.
  unfoldable pub select : (A → Bool) → List A → List A
  select p [] = []
  select p (x ∷ xs) = let rest = select p xs in if p x then x ∷ rest else rest

  -- The elements that pass the test, changed in place.
  unfoldable pub map_where : (A → Bool) → (A → A) → List A → List A
  map_where p f [] = []
  map_where p f (x ∷ xs) = (if p x then f x else x) ∷ map_where p f xs

  -- A change that a test does not see keeps what the test finds, up to the change.
  pub find-map_where :
      (q p : A → Bool) (f : A → A) (xs : List A)
      → ((x : A) → q (f x) ≡ q x)
      → find q (map_where p f xs) ≡ Option.map (λ x. if p x then f x else x) (find q xs)
  unfolding find map_where
  find-map_where q p f [] keeps = refl
  find-map_where q p f (x ∷ xs) keeps = ground (arith, keeps x, find-map_where q p f xs keeps)

  -- A new element is found only where no old one is.
  pub find-append :
      (q : A → Bool) (xs : List A) (a : A)
      → find q (xs ++ a ∷ [])
        ≡ (elim (find q xs) [ some x ↦ some x | none ↦ if q a then some a else none ])
  unfolding find
  find-append q [] a = refl
  find-append q (x ∷ xs) a = ground (arith, find-append q xs a)

  pub find-satisfies : (q : A → Bool) (xs : List A) {x : A} → find q xs ≡ some x → q x ≡ true
  unfolding find
  find-satisfies q [] e = cc
  find-satisfies q (y ∷ ys) {x} e = ground (arith, find-satisfies q ys {x = x})

  -- A narrower test finds the same element, if it accepts it.
  pub find-narrow :
      (q p : A → Bool) (xs : List A) {x : A}
      → ((y : A) → p y ≡ true → q y ≡ true)
      → find q xs ≡ some x
      → p x ≡ true
      → find p xs ≡ some x
  unfolding find
  find-narrow q p [] sub e h = cc
  find-narrow q p (y ∷ ys) {x} sub e h = ground (arith, sub y, find-narrow q p ys {x = x} sub)

  -- After a change that makes every hit a miss, the test finds nothing.
  pub find-map_where-none :
      (p : A → Bool) (f : A → A) (xs : List A)
      → ((x : A) → p x ≡ true → p (f x) ≡ false)
      → find p (map_where p f xs) ≡ none
  unfolding find map_where
  find-map_where-none p f [] miss = refl
  find-map_where-none p f (x ∷ xs) miss = ground (arith, miss x, find-map_where-none p f xs miss)

  -- The first n elements, and those after them.
  unfoldable pub take : ℕ → List A → List A
  take zero xs = []
  take (suc n) [] = []
  take (suc n) (x ∷ xs) = x ∷ take n xs

  unfoldable pub drop : ℕ → List A → List A
  drop zero xs = xs
  drop (suc n) [] = []
  drop (suc n) (x ∷ xs) = drop n xs

  pub length-take-le : (n : ℕ) (xs : List A) → length (take n xs) ≤ n
  unfolding take
  length-take-le (suc n) (x ∷ xs) = omega (arith, length-take-le n xs)
  length-take-le _ _ = omega arith

  take-add : (m n : ℕ) (xs : List A) → take (m + n) xs ≡ take m xs ++ take n (drop m xs)
  unfolding take drop
  take-add zero n xs = let e : 0 + n ≡ n = omega arith in ap (λ k. take k xs) e
  take-add (suc m) n [] =
      let e : suc m + n ≡ suc (m + n) = omega arith in ap (λ k. take k []) e ∙ sym (take_nil n)
    where
      take_nil : (k : ℕ) → take k [] ≡ []
      take_nil zero = refl
      take_nil (suc k) = refl
  take-add (suc m) n (x ∷ xs) =
      let e : suc m + n ≡ suc (m + n) = omega arith in
      ap (λ k. take k (x ∷ xs)) e ∙ ap (◌∷◌ x) (take-add m n xs)

  drop-drop : (m k : ℕ) (xs : List A) → drop m (drop k xs) ≡ drop (k + m) xs
  unfolding drop
  drop-drop m zero xs = let e : m ≡ 0 + m = omega arith in ap (λ j. drop j xs) e
  drop-drop zero (suc k) [] = let e : suc k ≡ suc k + 0 = omega arith in ap (λ j. drop j []) e
  drop-drop (suc m) (suc k) [] =
      let e : suc k + suc m ≡ suc (k + suc m) = omega arith in ap (λ j. drop j []) (sym e)
  drop-drop m (suc k) (x ∷ xs) =
      let e : suc k + m ≡ suc (k + m) = omega arith in
      drop-drop m k xs ∙ ap (λ j. drop j (x ∷ xs)) (sym e)

  -- A piece of m + n elements is one of m and the one of n that follows it.
  pub take-drop-add :
      (m n k : ℕ) (xs : List A)
      → take (m + n) (drop k xs) ≡ take m (drop k xs) ++ take n (drop (k + m) xs)
  take-drop-add m n k xs =
      take-add m n (drop k xs) ∙ ap (λ ys. take m (drop k xs) ++ take n ys) (drop-drop m k xs)

  -- A predicate of every element.
  abbrev pub All {κ} : (A → Type κ) → List A → Type κ
  All P [] = Unit
  All P (x ∷ xs) = P x × All P xs

  pub All-take {κ} : (P : A → Type κ) (n : ℕ) (xs : List A) → All P xs → All P (take n xs)
  unfolding take
  All-take P zero xs h = tt
  All-take P (suc n) [] h = tt
  All-take P (suc n) (x ∷ xs) h = (h.0, All-take P n xs h.1)

  pub All-drop {κ} : (P : A → Type κ) (n : ℕ) (xs : List A) → All P xs → All P (drop n xs)
  unfolding drop
  All-drop P zero xs h = h
  All-drop P (suc n) [] h = tt
  All-drop P (suc n) (x ∷ xs) h = All-drop P n xs h.1

  pub All-select : (p : A → Bool) (xs : List A) → All (λ x. p x ≡ true) (select p xs)
  unfolding select
  All-select p [] = tt
  All-select p (x ∷ xs) = elim (Bool-cases (p x)) [
    | inl e ↦ rw e (e, All-select p xs)
    | inr e ↦ rw e (All-select p xs)
  ]
