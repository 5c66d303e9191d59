-- ===== src/Promos/Usage.antt =====
-- How often a user can use a promo: the counter in Redis and the cap of the promo.
use obbian_ribe_booking_app.Base.{
  ap, sym, ◌∙◌, ℕ, ◌≡◌, refl, true, false, not, List, if◌then◌else◌, ℤ, pos, negsuc, ltℤ, ◌+ℤ◌,
  int_laws, +ℤ_parts, Bool-cases, inl, inr, arith,
}
use obbian_ribe_booking_app.Platform.{Platform, RedisKey, counter, same_key-promo_usage}
use obbian_ribe_booking_app.World.{World, ok, err, Failure}
use obbian_ribe_booking_app.Schema.{Promo}
use obbian_ribe_booking_app.Promos.Service.{
  terms_of, usable_promo, find_active_by_code, validate, claim_use, start_window, check_cap,
  settle_use, usage_ttl_seconds, redeem,
}

above_suc : (u : ℤ) (limit : ℕ) → ltℤ (pos limit) (u +ℤ pos 1) ≡ not (ltℤ u (pos limit))
above_suc u limit = ground (arith, +ℤ_parts u (pos 1))

back_again : (u : ℤ) → u +ℤ pos 1 +ℤ negsuc 0 ≡ u
back_again u = omega int_laws

module _ ⦃pf : Platform⦄ (promo : Promo) (user_id : ℕ) where
  abbrev key : RedisKey
  key = RedisKey.promo_usage promo.id user_id

  -- The uses that are counted.
  abbrev pub uses_of : World → ℤ
  uses_of w = counter (pf.get w.now key w.redis)

  pub uses_of-claim_use :
      (w : World)
      → w.redis_up ≡ true
      → let (result, w') = claim_use promo user_id w in
        (result ≡ ok (uses_of w +ℤ pos 1))
        × (uses_of w' ≡ uses_of w +ℤ pos 1)
        × (w'.redis_up ≡ true)
  unfolding claim_use
  uses_of-claim_use w up =
      rw
        (
          up,
          pf.get-incr w.now key key w.redis,
          same_key-promo_usage promo.id user_id,
          pf.incr-value w.now key w.redis,
        )
        (refl, refl, refl)

  start_window_lem :
      (uses : ℤ) (w : World)
      → w.redis_up ≡ true
      → let (result, w') = start_window promo user_id uses w in
        (result ≡ ok tt) × (uses_of w' ≡ uses_of w) × (w'.redis_up ≡ true)
  unfolding start_window
  start_window_lem uses w up =
      ground (arith, pf.get-expire w.now key key usage_ttl_seconds w.redis (omega arith))

  check_cap-refuses :
      (uses : ℤ) (w : World)
      → w.redis_up ≡ true
      → ltℤ (pos promo.max_uses_per_user) uses ≡ true
      → let (result, w') = check_cap promo user_id uses w in
        (result ≡ err Failure.bad_request)
        × (uses_of w' ≡ uses_of w +ℤ negsuc 0)
        × (w'.redis_up ≡ true)
  unfolding check_cap
  check_cap-refuses uses w up above =
      rw
        (
          above,
          up,
          pf.get-decr w.now key key w.redis,
          same_key-promo_usage promo.id user_id,
          pf.decr-value w.now key w.redis,
        )
        (refl, refl, refl)

  check_cap-grants :
      (uses : ℤ) (w : World)
      → ltℤ (pos promo.max_uses_per_user) uses ≡ false
      → check_cap promo user_id uses w ≡ (ok (terms_of promo), w)
  unfolding check_cap
  check_cap-grants uses w within = rw within refl

  pub settle_use-refuses :
      (uses : ℤ) (w : World)
      → w.redis_up ≡ true
      → ltℤ (pos promo.max_uses_per_user) uses ≡ true
      → let (result, w') = settle_use promo user_id uses w in
        (result ≡ err Failure.bad_request)
        × (uses_of w' ≡ uses_of w +ℤ negsuc 0)
        × (w'.redis_up ≡ true)
  unfolding settle_use
  settle_use-refuses uses w up above =
      let (started, same, up') = start_window_lem uses w up in
      let (refused, back, up'') =
        check_cap-refuses uses (start_window promo user_id uses w).1 up' above in
      rw started (refused, back ∙ ap (λ n. n +ℤ negsuc 0) same, up'')

  pub settle_use-grants :
      (uses : ℤ) (w : World)
      → w.redis_up ≡ true
      → ltℤ (pos promo.max_uses_per_user) uses ≡ false
      → let (result, w') = settle_use promo user_id uses w in
        (result ≡ ok (terms_of promo)) × (uses_of w' ≡ uses_of w) × (w'.redis_up ≡ true)
  unfolding settle_use
  settle_use-grants uses w up within =
      let (started, same, up') = start_window_lem uses w up in
      rw (started, check_cap-grants uses (start_window promo user_id uses w).1 within)
        (refl, same, up')

  usable-eq :
      (code : List ℕ) (w : World)
      → (usable_promo code w).0 ≡ ok promo
      → usable_promo code w ≡ (ok promo, w)
  unfolding usable_promo find_active_by_code
  usable-eq code w e = ground arith

  -- With Redis up, a promo that can be used now is granted exactly while fewer uses are counted than
  -- its cap; then one more is counted, and otherwise the count is as before.
  pub redeem_lem :
      (code : List ℕ) (w : World)
      → w.redis_up ≡ true
      → (usable_promo code w).0 ≡ ok promo
      → let (result, w') = redeem code user_id w in
        let free = ltℤ (uses_of w) (pos promo.max_uses_per_user) in
        (result ≡ (if free then ok (terms_of promo) else err Failure.bad_request))
        × (uses_of w' ≡ (if free then uses_of w +ℤ pos 1 else uses_of w))
  unfolding redeem
  redeem_lem code w up usable =
      let (counted, more, up') = uses_of-claim_use w up in
      let uses = uses_of w +ℤ pos 1 in
      let claimed = (claim_use promo user_id w).1 in
      elim (Bool-cases (ltℤ (uses_of w) (pos promo.max_uses_per_user))) [
        | inl free ↦
            let (granted, same, _) =
              settle_use-grants uses claimed up'
                (above_suc (uses_of w) promo.max_uses_per_user ∙ ap not free) in
            rw (usable-eq code w usable, counted, free) (granted, same ∙ more)
        | inr used ↦
            let (refused, back, _) =
              settle_use-refuses uses claimed up'
                (above_suc (uses_of w) promo.max_uses_per_user ∙ ap not used) in
            rw (usable-eq code w usable, counted, used)
              (refused, back ∙ ap (λ n. n +ℤ negsuc 0) more ∙ back_again (uses_of w))
      ]

  validate_lem :
      (code : List ℕ) (w : World)
      → w.redis_up ≡ true
      → (usable_promo code w).0 ≡ ok promo
      → let free = ltℤ (uses_of w) (pos promo.max_uses_per_user) in
        (validate code user_id w).0
        ≡ (if free then ok (terms_of promo) else err Failure.bad_request)
  unfolding validate
  validate_lem code w up usable =
      elim (Bool-cases (ltℤ (uses_of w) (pos promo.max_uses_per_user))) [
        | inl free ↦ rw (usable-eq code w usable, up, free) refl
        | inr used ↦ rw (usable-eq code w usable, up, used) refl
      ]

  -- With Redis up, asking whether a promo can be used says the same as using it.
  pub validate-redeem :
      (code : List ℕ) (w : World)
      → w.redis_up ≡ true
      → (usable_promo code w).0 ≡ ok promo
      → (validate code user_id w).0 ≡ (redeem code user_id w).0
  validate-redeem code w up usable =
      validate_lem code w up usable ∙ sym (redeem_lem code w up usable).0
