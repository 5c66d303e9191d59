-- ===== src/Auth/Token/Refinement.antt =====
-- TokenService (src/modules/auth/services/token.service.ts) against an abstract machine on phases.
use Prim.Native.String.{String}
use text.Mathlib.Text.{◌==◌ as same_text}
use obbian_ribe_booking_app.Base.{
  ◌≡◌, refl, false, Option, none, some, is_some, if◌then◌else◌, arith, Option-cases, Bool-cases,
  inl, inr,
}
use obbian_ribe_booking_app.Platform.{Platform}
use obbian_ribe_booking_app.World.{World, Failure}
use obbian_ribe_booking_app.Schema.{RefreshToken}
use obbian_ribe_booking_app.Auth.Token.{
  TokenSettings, has_hash, revoked_patch, is_invalid, rotate, revoke,
}
use obbian_ribe_booking_app.Auth.Token.Rows.{updated-HasDistinctTokens}
use obbian_ribe_booking_app.Auth.Token.Phases.{
  Phase, row_phase, found_phase, revoke_user, rotate_phase, at_hash, token_row, phases,
  HasDistinctTokens, phases-revoke,
}
use obbian_ribe_booking_app.Auth.Token.Machine.{
  spec_issue, spec_exchange, spec_rotate, spec_revoke, known_user, Refines,
}
use obbian_ribe_booking_app.Auth.Token.Exchange.{
  expiry, unchanged, phase_at, rotate_missing, rotate_found, use_token-reuse, use_token-Refines,
}

module _ ⦃pf : Platform⦄ (settings : TokenSettings) where
  -- How the abstract machine exchanges a row.
  spec_exchange-row_phase :
      (w : World) (hash fresh : String) (σ : String → Phase) (r : RefreshToken)
      → spec_exchange (known_user w) w.now (expiry settings w) hash fresh σ (row_phase r) ≡ (
          if is_invalid w.now r
          then (false, σ)
          else (if is_some r.rotated_at
              then (false, λ k. revoke_user r.user_id (σ k))
              else (if known_user w r.user_id
                  then spec_issue fresh r.user_id (expiry settings w) (at_hash hash rotate_phase σ)
                  else (false, at_hash hash rotate_phase σ))))
  unfolding spec_exchange row_phase is_invalid
  spec_exchange-row_phase w hash fresh σ r = ground arith

  rotate_row :
      (token fresh : String) (device : Option String) (w : World) (r : RefreshToken)
      → HasDistinctTokens w
      → token_row w (settings.sha256 token) ≡ some r
      → Refines w (rotate settings token fresh device w) (
          spec_exchange
            (known_user w)
            w.now
            (expiry settings w)
            (settings.sha256 token)
            (settings.sha256 fresh)
            (phases w)
            (row_phase r))
  rotate_row token fresh device w r d held = elim (Bool-cases (is_invalid w.now r)) [
    | inl bad ↦
        rw
          (
            spec_exchange-row_phase w (settings.sha256 token) (settings.sha256 fresh) (phases w) r,
            rotate_found settings token fresh device w r held,
            bad,
          )
          (unchanged settings Failure.unauthorized w d)
    | inr good ↦ elim (Bool-cases (is_some r.rotated_at)) [
      | inl again ↦
          rw
            (
              spec_exchange-row_phase w (settings.sha256 token) (settings.sha256 fresh) (phases w)
                  r,
              rotate_found settings token fresh device w r held,
              good,
              again,
            )
            (use_token-reuse settings r fresh device w d again)
      | inr first ↦
          rw
            (
              spec_exchange-row_phase w (settings.sha256 token) (settings.sha256 fresh) (phases w)
                  r,
              rotate_found settings token fresh device w r held,
              good,
              first,
            )
            (use_token-Refines settings (settings.sha256 token) fresh r device w d held first)
    ]
  ]

  pub rotate-Refines :
      (token fresh : String) (device : Option String) (w : World)
      → HasDistinctTokens w
      → Refines w (rotate settings token fresh device w) (
          spec_rotate
            (known_user w)
            w.now
            (expiry settings w)
            (settings.sha256 token)
            (settings.sha256 fresh)
            (phases w))
  unfolding spec_rotate found_phase spec_exchange
  rotate-Refines token fresh device w d =
      elim (Option-cases (token_row w (settings.sha256 token))) [
        | inl missing ↦
            rw
              (
                phase_at settings w (settings.sha256 token) none missing,
                rotate_missing settings token fresh device w missing,
              )
              (unchanged settings Failure.unauthorized w d)
        | inr (r, held) ↦
            rw (phase_at settings w (settings.sha256 token) (some r) held)
              (rotate_row token fresh device w r d held)
      ]

  pub revoke-Refines :
      (token : Option String) (w : World)
      → HasDistinctTokens w
      → Refines w (revoke settings token w) (spec_revoke settings token (phases w))
  unfolding revoke spec_revoke revoked_patch
  revoke-Refines none w d = record {
    answers = refl;
    leaves = refl;
    distinct = d;
    users = refl;
    now = refl;
  }
  revoke-Refines (some token) w d = elim (Bool-cases (same_text token "")) [
    | inl empty ↦
        rw empty (record { answers = refl; leaves = refl; distinct = d; users = refl; now = refl })
    | inr proper ↦ rw proper (record {
      answers = refl;
      leaves = λ i k. phases-revoke w.now (settings.sha256 token) w k i;
      distinct =
          updated-HasDistinctTokens (has_hash (settings.sha256 token)) (revoked_patch w.now) w
            (λ t. refl) (λ t. refl) d;
      users = refl;
      now = refl;
    })
  ]
