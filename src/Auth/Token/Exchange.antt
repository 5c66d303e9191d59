-- ===== src/Auth/Token/Exchange.antt =====
-- TokenService (src/modules/auth/services/token.service.ts):
-- the calls branch by branch.
use Prim.Native.String.{String}
use obbian_ribe_booking_app.Base.{
  ℕ, ◌+◌, ◌*◌, ◌≡◌, refl, ◌==◌, true, false, not, ◌&&◌, Option, none, some, is_some, if◌then◌else◌,
  find-satisfies, arith, Option-cases, inl, inr, ap, ==_iff,
}
use obbian_ribe_booking_app.Platform.{Platform}
use obbian_ribe_booking_app.World.{World, Outcome, ok, err, Failure}
use obbian_ribe_booking_app.Schema.{User, RefreshToken}
use obbian_ribe_booking_app.Users.Service.{find_by_id}
use obbian_ribe_booking_app.Auth.Token.{
  TokenSettings, revoked_patch, rotated_patch, revoke_all_for_user, mark_rotated, is_invalid,
  new_token, insert_token, response, issue_tokens, use_token, rotate,
}
use obbian_ribe_booking_app.Auth.Token.Rows.{
  phases-insert_token, insert_token-HasDistinctTokens, updated-HasDistinctTokens,
}
use obbian_ribe_booking_app.Auth.Token.Phases.{
  Phase, row_phase, found_phase, revoke_user, rotate_phase, at_hash, token_row, phases,
  HasDistinctTokens, updated, phases-revoke_user, phases-rotate,
}
use obbian_ribe_booking_app.Auth.Token.Machine.{
  is_absent, Answered, spec_issue, user_row, known_user, Refines,
}

module _ ⦃pf : Platform⦄ (settings : TokenSettings) where
  abbrev pub expiry : World → ℕ
  expiry w = w.now + settings.refresh_ttl * 1000

  pub issue_tokens_eq :
      (user : User) (token : String) (device : Option String) (w : World)
      → issue_tokens settings user token device w ≡ (
          if is_some (token_row w (settings.sha256 token)) then (err Failure.internal, w) else (
            ok (response settings user token w.now),
            insert_token (new_token settings user.id token device w) w,
          ))
  unfolding issue_tokens
  issue_tokens_eq user token device w = ground arith

  pub phase_at :
      (w : World) (k : String) (o : Option RefreshToken)
      → token_row w k ≡ o
      → phases w k ≡ found_phase o
  unfolding phases
  phase_at w k o found = ap found_phase found

  pub row_phase_present : (r : RefreshToken) → is_absent (row_phase r) ≡ false
  unfolding row_phase
  row_phase_present r = ground arith

  -- A call that changes nothing.
  pub unchanged :
      {A : Type 0} (e : Failure) (w : World)
      → HasDistinctTokens w
      → Refines {A = A} w (err e, w) (false, phases w)
  unchanged e w d = record { answers = refl; leaves = refl; distinct = d; users = refl; now = refl }

  issue_tokens-fresh :
      (user : User) (token : String) (device : Option String) (w : World)
      → HasDistinctTokens w
      → token_row w (settings.sha256 token) ≡ none
      → Refines w
          (issue_tokens settings user token device w)
          (true, at_hash (settings.sha256 token) (λ _. Phase.live user.id (expiry w)) (phases w))
  unfolding new_token row_phase
  issue_tokens-fresh user token device w d free =
      rw (issue_tokens_eq user token device w, free)
        (record {
          answers = refl;
          leaves = phases-insert_token (new_token settings user.id token device w) w free;
          distinct =
              insert_token-HasDistinctTokens (new_token settings user.id token device w) w free refl
                d;
          users = refl;
          now = refl;
        })

  pub issue_tokens-Refines :
      (user : User) (token : String) (device : Option String) (w : World)
      → HasDistinctTokens w
      → Refines w
          (issue_tokens settings user token device w)
          (spec_issue (settings.sha256 token) user.id (expiry w) (phases w))
  unfolding spec_issue found_phase
  issue_tokens-Refines user token device w d =
      elim (Option-cases (token_row w (settings.sha256 token))) [
        | inl free ↦
            rw (phase_at w (settings.sha256 token) none free)
              (issue_tokens-fresh user token device w d free)
        | inr (r, taken) ↦
            rw
              (
                phase_at w (settings.sha256 token) (some r) taken,
                row_phase_present r,
                issue_tokens_eq user token device w,
                taken,
              )
              (unchanged Failure.internal w d)
      ]

  pub rotate_missing :
      (token fresh : String) (device : Option String) (w : World)
      → token_row w (settings.sha256 token) ≡ none
      → rotate settings token fresh device w ≡ (err Failure.unauthorized, w)
  unfolding rotate
  rotate_missing token fresh device w missing = ground arith

  pub rotate_found :
      (token fresh : String) (device : Option String) (w : World) (r : RefreshToken)
      → token_row w (settings.sha256 token) ≡ some r
      → rotate settings token fresh device w ≡ (
          if is_invalid w.now r
          then (err Failure.unauthorized, w)
          else use_token settings r fresh device w)
  unfolding rotate
  rotate_found token fresh device w r found = ground arith

  pub use_token-reuse :
      (r : RefreshToken) (fresh : String) (device : Option String) (w : World)
      → HasDistinctTokens w
      → is_some r.rotated_at ≡ true
      → Refines w
          (use_token settings r fresh device w)
          (false, λ k. revoke_user r.user_id (phases w k))
  unfolding use_token revoke_all_for_user revoked_patch
  use_token-reuse r fresh device w d reused = rw reused (record {
    answers = refl;
    leaves = λ i k. phases-revoke_user w.now r.user_id w k i;
    distinct =
        updated-HasDistinctTokens (λ t. t.user_id == r.user_id && not (is_some t.revoked_at))
          (revoked_patch w.now) w (λ t. refl) (λ t. refl) d;
    users = refl;
    now = refl;
  })

  -- The row of a token that is used.
  unfoldable pub used : RefreshToken → World → World
  used r w = updated (λ t. t.id == r.id) (rotated_patch w.now) w

  used-HasDistinctTokens :
      (r : RefreshToken) (w : World) → HasDistinctTokens w → HasDistinctTokens (used r w)
  unfolding rotated_patch used
  used-HasDistinctTokens r w d =
      updated-HasDistinctTokens (λ t. t.id == r.id) (rotated_patch w.now) w (λ t. refl) (λ t. refl)
        d

  pub use_token-stranger :
      (r : RefreshToken) (fresh : String) (device : Option String) (w : World)
      → is_some r.rotated_at ≡ false
      → user_row w r.user_id ≡ none
      → use_token settings r fresh device w ≡ (err Failure.unauthorized, used r w)
  unfolding use_token mark_rotated find_by_id used
  use_token-stranger r fresh device w first missing = rw first (ground arith)

  pub use_token-user :
      (r : RefreshToken) (fresh : String) (device : Option String) (w : World) (user : User)
      → is_some r.rotated_at ≡ false
      → user_row w r.user_id ≡ some user
      → use_token settings r fresh device w ≡ issue_tokens settings user fresh device (used r w)
  unfolding use_token mark_rotated find_by_id used
  use_token-user r fresh device w user first found = rw (first, found) refl

  phases-used :
      (hash : String) (r : RefreshToken) (w : World)
      → HasDistinctTokens w
      → token_row w hash ≡ some r
      → phases (used r w) ≡ at_hash hash rotate_phase (phases w)
  unfolding used
  phases-used hash r w d held = λ i k. phases-rotate w.now hash r w k d held i

  Refines-used :
      {A : Type 0} (r : RefreshToken) (w : World) {result : Outcome A × World} {spec : Answered}
      → Refines (used r w) result spec
      → Refines w result spec
  unfolding used
  Refines-used r w t = record {
    answers = t.answers;
    leaves = t.leaves;
    distinct = t.distinct;
    users = t.users;
    now = t.now;
  }

  pub use_token-Refines :
      (hash fresh : String) (r : RefreshToken) (device : Option String) (w : World)
      → HasDistinctTokens w
      → token_row w hash ≡ some r
      → is_some r.rotated_at ≡ false
      → Refines w (use_token settings r fresh device w) (
          if known_user w r.user_id
          then spec_issue
              (settings.sha256 fresh)
              r.user_id
              (expiry w)
              (at_hash hash rotate_phase (phases w))
          else (false, at_hash hash rotate_phase (phases w)))
  unfolding used
  use_token-Refines hash fresh r device w d held first =
      elim (Option-cases (user_row w r.user_id)) [
        | inl missing ↦
            rw (missing, use_token-stranger r fresh device w first missing)
              (record {
                answers = refl;
                leaves = phases-used hash r w d held;
                distinct = used-HasDistinctTokens r w d;
                users = refl;
                now = refl;
              })
        | inr (user, found) ↦
            rw
              (
                found,
                use_token-user r fresh device w user first found,
                ← phases-used hash r w d held,
                ← (==_iff user.id r.user_id).0
                    (find-satisfies (λ u. u.id == r.user_id) (pf.rows w.users) found),
              )
              (Refines-used r w
                (issue_tokens-Refines user fresh device (used r w) (used-HasDistinctTokens r w d)))
      ]
