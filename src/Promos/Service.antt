-- ===== src/Promos/Service.antt =====
-- src/modules/promos/services/promos.service.ts. A code is a list of ASCII characters; percentages are
-- hundredths, amounts paise.
use obbian_ribe_booking_app.Base.{
  ℕ, zero, suc, ◌*◌, ◌-◌, ◌==◌, Bool, true, false, not, ◌&&◌, Option, none, some, List, [], ◌∷◌,
  map, ltb, leb, if◌then◌else◌, select, ℤ, pos, ltℤ,
}
use obbian_ribe_booking_app.Platform.{Platform, RedisKey, counter}
use obbian_ribe_booking_app.World.{
  Action, ◌>>=◌, ◌>>◌, pure, throw, throw_if, or_throw, gets, select_one, redis_call, ignore_error,
  Failure,
}
use obbian_ribe_booking_app.Schema.{Promo}

-- toUpperCase, of one character and of a code.
abbrev upper : ℕ → ℕ
upper c = if leb 97 c && leb c 122 then c - 32 else c

abbrev same_code : List ℕ → List ℕ → Bool
same_code [] [] = true
same_code (c ∷ cs) (d ∷ ds) = c == d && same_code cs ds
same_code _ _ = false

abbrev pub has_code : List ℕ → Promo → Bool
has_code code p = same_code p.code (map upper code)

pub record PromoTerms : Type 0 where
  pub code : List ℕ
  pub discount_percent : ℕ
  pub max_discount : ℕ
  pub valid_until : Option ℕ

abbrev pub terms_of : Promo → PromoTerms
terms_of p = record {
  code = p.code;
  discount_percent = p.discount_percent;
  max_discount = p.max_discount;
  valid_until = p.valid_until;
}

abbrev is_before : ℕ → Option ℕ → Bool
is_before now none = false
is_before now (some t) = ltb now t

abbrev is_after : ℕ → Option ℕ → Bool
is_after now none = false
is_after now (some t) = ltb t now

-- Whether the promo is outside its window at a time, in which case it cannot be used.
unfoldable pub out_of_window : ℕ → Promo → Bool
out_of_window now p = if is_before now p.valid_from then true else is_after now p.valid_until

abbrev pub usage_ttl_seconds : ℕ
usage_ttl_seconds = 60 * 60 * 24 * 90

-- Newest first.
abbrev insert_newest : Promo → List Promo → List Promo
insert_newest p [] = p ∷ []
insert_newest p (q ∷ qs) =
    let rest = insert_newest p qs in if ltb p.created_at q.created_at then q ∷ rest else p ∷ q ∷ qs

unfoldable pub newest : List Promo → List Promo
newest [] = []
newest (p ∷ ps) = insert_newest p (newest ps)

abbrev first : ℕ → List Promo → List Promo
first zero ps = []
first (suc n) [] = []
first (suc n) (p ∷ ps) = p ∷ first n ps

module _ ⦃pf : Platform⦄ where
  unfoldable pub find_active_by_code : List ℕ → Action (Option Promo)
  find_active_by_code code = select_one (λ w. w.promos) (λ p. has_code code p && p.is_active)

  -- The promo of a code that can be used now.
  unfoldable pub usable_promo : List ℕ → Action Promo
  usable_promo code = find_active_by_code code >>= λ found.
      or_throw found Failure.not_found >>= λ promo. gets (λ w. w.now) >>= λ now.
      throw_if (out_of_window now promo) Failure.bad_request >> pure promo

  unfoldable pub validate : List ℕ → ℕ → Action PromoTerms
  validate code user_id = usable_promo code >>= λ promo.
      redis_call (λ now s. (pf.get now (RedisKey.promo_usage promo.id user_id) s, s)) >>= λ usage.
      throw_if (not (ltℤ (counter usage) (pos promo.max_uses_per_user))) Failure.bad_request
      >> pure (terms_of promo)

  -- INCR
  unfoldable pub claim_use : Promo → ℕ → Action ℤ
  claim_use promo user_id =
      redis_call (λ now s. pf.incr now (RedisKey.promo_usage promo.id user_id) s)

  abbrev is_one : ℤ → Bool
  is_one (pos n) = n == 1
  is_one _ = false

  -- The window of 90 days starts with the first use.
  unfoldable pub start_window : Promo → ℕ → ℤ → Action (Unit {0})
  start_window promo user_id uses =
      if is_one uses
      then redis_call
          (λ now s. (tt, pf.expire now (RedisKey.promo_usage promo.id user_id) usage_ttl_seconds s))
      else pure tt

  -- A use above the cap is given back.
  unfoldable pub check_cap : Promo → ℕ → ℤ → Action PromoTerms
  check_cap promo user_id uses =
      if ltℤ (pos promo.max_uses_per_user) uses
      then (redis_call (λ now s. pf.decr now (RedisKey.promo_usage promo.id user_id) s) >>= λ _.
          throw Failure.bad_request)
      else pure (terms_of promo)

  -- What redeem does with the count that INCR has returned.
  unfoldable pub settle_use : Promo → ℕ → ℤ → Action PromoTerms
  settle_use promo user_id uses = start_window promo user_id uses >> check_cap promo user_id uses

  unfoldable pub redeem : List ℕ → ℕ → Action PromoTerms
  redeem code user_id = usable_promo code >>= λ promo.
      claim_use promo user_id >>= λ uses. settle_use promo user_id uses

  abbrev release_of : Option Promo → ℕ → Action (Unit {0})
  release_of none user_id = pure tt
  release_of (some promo) user_id =
      redis_call (λ now s. pf.decr now (RedisKey.promo_usage promo.id user_id) s) >>= λ _. pure tt

  unfoldable pub release : List ℕ → ℕ → Action (Unit {0})
  release code user_id =
      ignore_error
        (select_one (λ w. w.promos) (has_code code) >>= λ found. release_of found user_id)

  unfoldable pub list_available : Action (List PromoTerms)
  list_available =
      gets λ w. map terms_of (first 10 (newest (select (λ p. p.is_active) (pf.rows w.promos))))
