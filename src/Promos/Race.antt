-- ===== src/Promos/Race.antt =====
-- Concurrent redemptions of a promo by one user: their INCRs, and what each does after its own, in
-- any order.
use obbian_ribe_booking_app.Base.{
  ℕ, zero, suc, ◌+◌, ◌≤◌, ◌≡◌, true, Option, none, some, List, [], ◌∷◌, length, sum_by,
  if◌then◌else◌, ℤ, pos, negsuc, ltℤ, ◌≤ℤ◌, +ℤ_parts, Bool-cases, Option-cases, inl, inr, arith,
}
use obbian_ribe_booking_app.Platform.{Platform}
use obbian_ribe_booking_app.World.{World, Outcome, ok, err}
use obbian_ribe_booking_app.Schema.{Promo}
use obbian_ribe_booking_app.Promos.Service.{PromoTerms, claim_use, settle_use}
use obbian_ribe_booking_app.Promos.Usage.{
  uses_of, uses_of-claim_use, settle_use-refuses, settle_use-grants,
}

-- The k-th element, and the others.
abbrev take_out : ℕ → List ℤ → Option (ℤ × List ℤ)
take_out k [] = none
take_out zero (x ∷ xs) = some (x, xs)
take_out (suc k) (x ∷ xs) = elim (take_out k xs) [ none ↦ none | some (y, ys) ↦ some (y, x ∷ ys) ]

abbrev within : ℕ → ℤ → ℕ
within limit uses = if ltℤ (pos limit) uses then 0 else 1

take_out_lem :
    (limit k : ℕ) (xs : List ℤ) {y : ℤ} {ys : List ℤ}
    → take_out k xs ≡ some (y, ys)
    → (length xs ≡ suc (length ys))
      × (sum_by (within limit) xs ≡ sum_by (within limit) ys + within limit y)
take_out_lem limit k [] e = cc
take_out_lem limit zero (x ∷ xs) e = ground arith
take_out_lem limit (suc k) (x ∷ xs) {y} {ys} e = elim (Option-cases (take_out k xs)) [
  | inl missing ↦ ground arith
  | inr ((z, zs), found) ↦ ground (arith, take_out_lem limit k xs found)
]

sum_within_le : (limit : ℕ) (xs : List ℤ) → sum_by (within limit) xs ≤ length xs
sum_within_le limit [] = omega arith
sum_within_le limit (x ∷ xs) = ground (arith, sum_within_le limit xs)

-- INCR of a new redemption, or the rest of the k-th one that has done its INCR.
pub data RedeemStep : Type 0 where
  claims : RedeemStep
  settles : ℕ → RedeemStep

-- The counts that the redemptions under way have got, and how many have been granted.
pub record Race ⦃pf : Platform⦄ : Type 0 where
  pub world : World
  pub pending : List ℤ
  pub granted : ℕ

module _ ⦃pf : Platform⦄ (promo : Promo) (user_id : ℕ) where
  abbrev claimed : Outcome ℤ → Race → World → Race
  claimed (ok uses) r w = record r { world = w; pending = uses ∷ r.pending }
  claimed (err e) r w = record r { world = w }

  abbrev settled : Outcome PromoTerms → Race → List ℤ → World → Race
  settled (ok terms) r rest w = record { world = w; pending = rest; granted = suc r.granted }
  settled (err e) r rest w = record { world = w; pending = rest; granted = r.granted }

  abbrev settle_one : Option (ℤ × List ℤ) → Race → Race
  settle_one none r = r
  settle_one (some (uses, rest)) r =
      settled (settle_use promo user_id uses r.world).0 r rest
        (settle_use promo user_id uses r.world).1

  pub redeem_step : RedeemStep → Race → Race
  redeem_step claims r =
      claimed (claim_use promo user_id r.world).0 r (claim_use promo user_id r.world).1
  redeem_step (settles k) r = settle_one (take_out k r.pending) r

  pub race : List RedeemStep → Race → Race
  race [] r = r
  race (s ∷ ss) r = race ss (redeem_step s r)

  -- All uses granted or under way are counted, and those within the cap are not above it.
  record Fair (r : Race) : Type 0 where
    counted : pos (r.granted + length r.pending) ≤ℤ uses_of promo user_id r.world
    capped : r.granted + sum_by (within promo.max_uses_per_user) r.pending ≤ promo.max_uses_per_user
    up : r.world.redis_up ≡ true

  claims-Fair : (r : Race) → Fair r → Fair (redeem_step claims r)
  unfolding redeem_step
  claims-Fair r fair =
      let (counted, more, up) = uses_of-claim_use promo user_id r.world fair.up in
      rw counted (record {
        counted =
            rw more (omega (arith, fair.counted, +ℤ_parts (uses_of promo user_id r.world) (pos 1)));
        capped = ground (
          arith,
          fair.counted,
          fair.capped,
          +ℤ_parts (uses_of promo user_id r.world) (pos 1),
          sum_within_le promo.max_uses_per_user r.pending,
        );
        up = up;
      })

  settle_one-Fair :
      (r : Race) (uses : ℤ) (rest : List ℤ)
      → Fair r
      → (length r.pending ≡ suc (length rest))
        × (sum_by (within promo.max_uses_per_user) r.pending
            ≡ sum_by (within promo.max_uses_per_user) rest + within promo.max_uses_per_user uses)
      → Fair (settle_one (some (uses, rest)) r)
  settle_one-Fair r uses rest fair (fewer, less) =
      elim (Bool-cases (ltℤ (pos promo.max_uses_per_user) uses)) [
        | inl above ↦
            let (refused, back, up) = settle_use-refuses promo user_id uses r.world fair.up above in
            rw refused (record {
              counted = rw back (
                  omega (arith, fair.counted, +ℤ_parts (uses_of promo user_id r.world) (negsuc 0)));
              capped = ground (arith, fair.capped);
              up = up;
            })
        | inr inside ↦
            let (allowed, same, up) = settle_use-grants promo user_id uses r.world fair.up inside in
            rw allowed (record {
              counted = rw same (omega (arith, fair.counted));
              capped = ground (arith, fair.capped);
              up = up;
            })
      ]

  settles-Fair : (k : ℕ) (r : Race) → Fair r → Fair (redeem_step (settles k) r)
  unfolding redeem_step
  settles-Fair k r fair = elim (Option-cases (take_out k r.pending)) [
    | inl missing ↦ rw missing fair
    | inr ((uses, rest), found) ↦
        rw found (
          settle_one-Fair r uses rest fair (take_out_lem promo.max_uses_per_user k r.pending found))
  ]

  race-Fair : (ss : List RedeemStep) (r : Race) → Fair r → Fair (race ss r)
  unfolding race
  race-Fair [] r fair = fair
  race-Fair (claims ∷ ss) r fair = race-Fair ss _ (claims-Fair r fair)
  race-Fair (settles k ∷ ss) r fair = race-Fair ss _ (settles-Fair k r fair)

  -- However the commands of concurrent redemptions by one user interleave, from a count that is not
  -- negative, with Redis up and no key expiring, no more uses are granted than the cap.
  pub race-granted :
      (ss : List RedeemStep) (w : World)
      → w.redis_up ≡ true
      → pos 0 ≤ℤ uses_of promo user_id w
      → (race ss (record { world = w; pending = []; granted = 0 })).granted
        ≤ promo.max_uses_per_user
  race-granted ss w up h = omega (
    arith,
    (race-Fair ss (record { world = w; pending = []; granted = 0 })
        (record { counted = h; capped = omega arith; up = up })).capped,
  )
