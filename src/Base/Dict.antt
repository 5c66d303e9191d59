-- ===== src/Base/Dict.antt =====
-- A Map of JavaScript: its entries, in the order in which their keys were first set.
use mathlib.Core.Path.{◌≡◌, refl, ap, ◌∙◌}
use mathlib.Core.Bool.{Bool, true, false}
use mathlib.Core.Logic.{◌↔◌, inl, inr}
use mathlib.Core.Option.{Option, none, some}
use mathlib.Core.List.{List, [], ◌∷◌}
use native.Mathlib.Omega.{arith}
use obbian_ribe_booking_app.Base.Tests.{if◌then◌else◌, Bool-cases}

module _ {ℓ} {K : Type ℓ} (same : K → K → Bool)
    (same_iff : (a b : K) → (same a b ≡ true) ↔ (a ≡ b)) where
  -- `same` takes any other key where the first is equal to the second.
  same_swap : (i j k : K) → same i j ≡ true → same i k ≡ same j k
  same_swap i j k h = ap (λ x. same x k) ((same_iff i j).0 h)

  pub same_refl : (k : K) → same k k ≡ true
  same_refl k = (same_iff k k).1 refl

  pub same_comm : (i k : K) → same i k ≡ false → same k i ≡ false
  same_comm i k apart = elim (Bool-cases (same k i)) [
    | inl e ↦ absurd (ground (arith, same_refl k, same_swap k i k e))
    | inr e ↦ e
  ]

  same_apart : (i j k : K) → same i k ≡ false → same i j ≡ true → same k j ≡ false
  same_apart i j k apart h = elim (Bool-cases (same k j)) [
    | inl e ↦ absurd (ground (arith, same_refl k, same_swap i j k h, same_swap k j k e))
    | inr e ↦ e
  ]

module _ {ℓ} {K V : Type ℓ} (same : K → K → Bool) where
  -- map.get(k)
  unfoldable pub lookup : K → List (K × V) → Option V
  lookup k [] = none
  lookup k ((j, v) ∷ m) = if same j k then some v else lookup k m

  -- map.set(k, v)
  unfoldable pub insert : K → V → List (K × V) → List (K × V)
  insert k v [] = (k, v) ∷ []
  insert k v ((j, u) ∷ m) = if same j k then (j, v) ∷ m else (j, u) ∷ insert k v m

  -- No key stands twice.
  abbrev pub HasDistinctKeys : List (K × V) → Type ℓ
  HasDistinctKeys [] = Unit
  HasDistinctKeys ((j, v) ∷ m) = (lookup j m ≡ none) × HasDistinctKeys m

  module _ (same_iff : (a b : K) → (same a b ≡ true) ↔ (a ≡ b)) where
    pub lookup-insert :
        (k j : K) (v : V) (m : List (K × V))
        → lookup j (insert k v m) ≡ (if same k j then some v else lookup j m)
    unfolding lookup insert
    lookup-insert k j v [] = refl
    lookup-insert k j v ((i, u) ∷ m) = elim (Bool-cases (same i k)) [
      | inl e ↦ ground (arith, same_swap same same_iff i k j e)
      | inr e ↦ ground (arith, lookup-insert k j v m, same_apart same same_iff i j k e)
    ]

    pub insert-HasDistinctKeys :
        (k : K) (v : V) (m : List (K × V)) → HasDistinctKeys m → HasDistinctKeys (insert k v m)
    unfolding insert lookup
    insert-HasDistinctKeys k v [] h = (refl, tt)
    insert-HasDistinctKeys k v ((i, u) ∷ m) h = elim (Bool-cases (same i k)) [
      | inl e ↦ rw e h
      | inr e ↦ rw e (
        lookup-insert k i v m ∙ ground (arith, same_comm same same_iff i k e, h.0),
        insert-HasDistinctKeys k v m h.1,
      )
    ]
