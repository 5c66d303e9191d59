-- ===== src/Auth/Token/Reuse.antt =====
-- A refresh token that is used a second time, and one that is used once
-- (src/modules/auth/services/token.service.ts).
use Prim.Native.String.{String}
use text.Mathlib.Text.{◌==◌ as same_text}
use text.Mathlib.TextEquality.{eq_iff}
use text.Mathlib.TextPositions.{eq_refl}
use mathlib.Core.Bool.{false≢true}
use obbian_ribe_booking_app.Base.{
  ℕ, ◌+◌, ◌*◌, ◌≤◌, ◌≡◌, refl, ◌==◌, Bool, true, false, Option, none, some, is_some, ltb,
  if◌then◌else◌, arith, Bool-cases, Option-cases, inl, inr, ap, sym, ◌∙◌,
}
use obbian_ribe_booking_app.Platform.{Platform}
use obbian_ribe_booking_app.World.{World, wait_until, ok}
use obbian_ribe_booking_app.Schema.{User, RefreshToken}
use obbian_ribe_booking_app.Auth.Token.{
  TokenSettings, issue_tokens, rotate, response, new_token, is_invalid, insert_token, rotated_patch,
}
use obbian_ribe_booking_app.Auth.Token.Phases.{
  Phase, revoke_user, rotate_phase, at_hash, phases, HasDistinctTokens, token_row,
  token_row-updated,
}
use obbian_ribe_booking_app.Auth.Token.Rows.{token_row-insert_token}
use obbian_ribe_booking_app.Auth.Token.Machine.{
  accepted, is_absent, spec_issue, spec_exchange, spec_rotate, known_user, user_row,
}
use obbian_ribe_booking_app.Auth.Token.Exchange.{
  expiry, issue_tokens_eq, rotate_found, use_token-user, used,
}
use obbian_ribe_booking_app.Auth.Token.Refinement.{rotate-Refines}

-- Whether a phase lets its user go on, now or later.
unfoldable pub belongs_to : ℕ → Phase → Bool
belongs_to user_id (Phase.live u e) = u == user_id
belongs_to user_id (Phase.rotated u e) = u == user_id
belongs_to user_id _ = false

live_inj : {u v e f : ℕ} → Phase.live u e ≡ Phase.live v f → u ≡ v
live_inj h = cc

belongs_to-revoke_user :
    (user_id : ℕ) (p : Phase) → belongs_to user_id (revoke_user user_id p) ≡ false
unfolding belongs_to revoke_user
belongs_to-revoke_user user_id p = ground arith

-- A token that the machine has accepted was live, and is rotated afterwards.
record Exchanged (now : ℕ) (hash : String) (σ τ : String → Phase) : Type 0 where
  user_id : ℕ
  expires_at : ℕ
  was_live : σ hash ≡ Phase.live user_id expires_at
  valid : ltb expires_at now ≡ false
  is_rotated : τ hash ≡ Phase.rotated user_id expires_at

spec_issue-keeps :
    (fresh hash : String) (u e : ℕ) (σ : String → Phase)
    → is_absent (σ hash) ≡ false
    → (spec_issue fresh u e σ).0 ≡ true
    → (spec_issue fresh u e σ).1 hash ≡ σ hash
unfolding spec_issue at_hash
spec_issue-keeps fresh hash u e σ held accepts = elim (Bool-cases (same_text hash fresh)) [
  | inl same ↦ absurd (ground (arith, ap (λ k. is_absent (σ k)) ((eq_iff hash fresh).0 same)))
  | inr other ↦ ground arith
]

marked :
    (hash : String) (σ : String → Phase) (u e : ℕ)
    → σ hash ≡ Phase.live u e
    → at_hash hash rotate_phase σ hash ≡ Phase.rotated u e
unfolding at_hash rotate_phase
marked hash σ u e at_p = rw (eq_refl hash, at_p) refl

spec_exchange-Exchanged :
    (known : ℕ → Bool) (now expires_at : ℕ) (hash fresh : String) (σ : String → Phase) (p : Phase)
    → σ hash ≡ p
    → (spec_exchange known now expires_at hash fresh σ p).0 ≡ true
    → Exchanged now hash σ (spec_exchange known now expires_at hash fresh σ p).1
unfolding spec_exchange
spec_exchange-Exchanged known now x hash fresh σ Phase.absent at_p accepts =
    absurd (false≢true accepts)
spec_exchange-Exchanged known now x hash fresh σ Phase.revoked at_p accepts =
    absurd (false≢true accepts)
spec_exchange-Exchanged known now x hash fresh σ (Phase.rotated u e) at_p accepts =
    absurd (ground arith)
spec_exchange-Exchanged known now x hash fresh σ (Phase.live u e) at_p accepts = record {
  user_id = u;
  expires_at = e;
  was_live = at_p;
  valid = ground arith;
  is_rotated = is_rotated (ltb e now) (known u) accepts;
}
  where
    is_rotated :
        (late is_known : Bool)
        → (if late
            then (false, σ)
            else (if is_known
                then spec_issue fresh u x (at_hash hash rotate_phase σ)
                else (false, at_hash hash rotate_phase σ))).0
          ≡ true
        → (if late
              then (false, σ)
              else (if is_known
                  then spec_issue fresh u x (at_hash hash rotate_phase σ)
                  else (false, at_hash hash rotate_phase σ))).1
            hash
          ≡ Phase.rotated u e
    is_rotated true b h = absurd (false≢true h)
    is_rotated false false h = absurd (false≢true h)
    is_rotated false true h =
        spec_issue-keeps fresh hash u x (at_hash hash rotate_phase σ)
          (ap is_absent (marked hash σ u e at_p)) h
        ∙ marked hash σ u e at_p

module _ ⦃pf : Platform⦄ (settings : TokenSettings) where
  rotate-Exchanged :
      (token fresh : String) (device : Option String) (w : World)
      → HasDistinctTokens w
      → accepted (rotate settings token fresh device w).0 ≡ true
      → Exchanged w.now
          (settings.sha256 token)
          (phases w)
          (phases (rotate settings token fresh device w).1)
  unfolding spec_rotate
  rotate-Exchanged token fresh device w d accepts =
      let t = rotate-Refines settings token fresh device w d in
      rw t.leaves (
        spec_exchange-Exchanged (known_user w) w.now (expiry settings w) (settings.sha256 token)
          (settings.sha256 fresh) (phases w) (phases w (settings.sha256 token)) refl
          (sym t.answers ∙ accepts))

  spec_rotate-reuse :
      (w : World) (hash fresh : String) (u e : ℕ)
      → phases w hash ≡ Phase.rotated u e
      → ltb e w.now ≡ false
      → spec_rotate (known_user w) w.now (expiry settings w) hash fresh (phases w)
        ≡ (false, λ k. revoke_user u (phases w k))
  unfolding spec_rotate spec_exchange
  spec_rotate-reuse w hash fresh u e rotated valid = rw (rotated, valid) refl

  -- From refresh tokens with distinct ids that have all been drawn, once a live one has been
  -- exchanged, exchanging it again at the same time is refused, and afterwards no token of its
  -- user, the new one included, can be used any more.
  pub rotate_reuse :
      (token fresh again : String) (device : Option String) (w : World) (user_id e : ℕ)
      → HasDistinctTokens w
      → phases w (settings.sha256 token) ≡ Phase.live user_id e
      → accepted (rotate settings token fresh device w).0 ≡ true
      → let v = (rotate settings token fresh device w).1 in
        let (result, u) = rotate settings token again device v in
        (accepted result ≡ false) × ((hash : String) → belongs_to user_id (phases u hash) ≡ false)
  rotate_reuse token fresh again device w user_id e d lives accepts =
      let t = rotate-Refines settings token fresh device w d in
      let x = rotate-Exchanged token fresh device w d accepts in
      let v = (rotate settings token fresh device w).1 in
      let t' = rotate-Refines settings token again device v t.distinct in
      let reused =
        spec_rotate-reuse v (settings.sha256 token) (settings.sha256 again) x.user_id x.expires_at
          x.is_rotated (rw t.now x.valid) in
      rw (live_inj (sym lives ∙ x.was_live)) (
        t'.answers ∙ ap (λ a. a.0) reused,
        λ hash.
            ap (λ a. belongs_to x.user_id (a hash)) (t'.leaves ∙ ap (λ a. a.1) reused)
            ∙ belongs_to-revoke_user x.user_id (phases v hash),
      )

  issue_tokens-accepted :
      (user : User) (token : String) (device : Option String) (w : World)
      → accepted (issue_tokens settings user token device w).0 ≡ true
      → (token_row w (settings.sha256 token) ≡ none)
        × ((issue_tokens settings user token device w).1
            ≡ insert_token (new_token settings user.id token device w) w)
  issue_tokens-accepted user token device w issued =
      elim (Option-cases (token_row w (settings.sha256 token))) [
        | inl free ↦ (free, ground (arith, issue_tokens_eq settings user token device w))
        | inr (r, taken) ↦ absurd (ground (arith, issue_tokens_eq settings user token device w))
      ]

  -- A row that is new and the user of which exists.
  rotate_new :
      (user : User) (token fresh : String) (other : Option String) (v : World) (r : RefreshToken)
      → token_row v (settings.sha256 token) ≡ some r
      → is_invalid v.now r ≡ false
      → is_some r.rotated_at ≡ false
      → user_row v r.user_id ≡ some user
      → token_row v (settings.sha256 fresh) ≡ none
      → (rotate settings token fresh other v).0 ≡ ok (response settings user fresh v.now)
  unfolding used rotated_patch
  rotate_new user token fresh other v r held valid first known free =
      rw
        (
          rotate_found settings token fresh other v r held,
          valid,
          use_token-user settings r fresh other v user first known,
          issue_tokens_eq settings user fresh other (used settings r v),
          token_row-updated (λ t. t.id == r.id) (rotated_patch v.now) v (settings.sha256 fresh)
              (λ t. refl),
          free,
        )
        refl

  -- A refresh token that has been issued can be exchanged for a new one until it expires, if its user
  -- exists and no row has the hash of the new one.
  pub rotate-issue_tokens :
      (user : User) (token fresh : String) (device other : Option String) (w : World) (later : ℕ)
      → accepted (issue_tokens settings user token device w).0 ≡ true
      → user_row w user.id ≡ some user
      → later ≤ w.now + settings.refresh_ttl * 1000
      → token_row w (settings.sha256 fresh) ≡ none
      → same_text (settings.sha256 fresh) (settings.sha256 token) ≡ false
      → (rotate settings token fresh other
          (wait_until later (issue_tokens settings user token device w).1)).0
        ≡ ok (response settings user fresh later)
  unfolding new_token is_invalid
  rotate-issue_tokens user token fresh device other w later issued known valid free distinct =
      let (unused, same) = issue_tokens-accepted user token device w issued in
      let r = new_token settings user.id token device w in
      let v = wait_until later (insert_token r w) in
      rw same (
        rotate_new user token fresh other v r
          (token_row-insert_token r w (settings.sha256 token) unused
            ∙ rw (eq_refl (settings.sha256 token)) refl)
          (ground arith) refl known
          (token_row-insert_token r w (settings.sha256 fresh) unused ∙ rw (distinct) free))
