-- ===== src/Auth/Token/Machine.antt =====
-- TokenService (src/modules/auth/services/token.service.ts) as an abstract machine on phases.
use Prim.Native.String.{String}
use text.Mathlib.Text.{◌==◌ as same_text}
use obbian_ribe_booking_app.Base.{
  ℕ, ◌≡◌, ◌==◌, Bool, true, false, Option, none, some, is_some, ltb, if◌then◌else◌, find,
}
use obbian_ribe_booking_app.Platform.{Platform}
use obbian_ribe_booking_app.World.{World, Outcome, ok, err}
use obbian_ribe_booking_app.Schema.{User}
use obbian_ribe_booking_app.Auth.Token.{TokenSettings}
use obbian_ribe_booking_app.Auth.Token.Phases.{
  Phase, revoke_phase, revoke_user, rotate_phase, at_hash, phases, HasDistinctTokens,
}

abbrev pub accepted : {A : Type 0} → Outcome A → Bool
accepted (ok a) = true
accepted (err e) = false

abbrev pub is_absent : Phase → Bool
is_absent Phase.absent = true
is_absent _ = false

-- The answer of the abstract machine and the phases afterwards.
abbrev pub Answered : Type 0
Answered = Bool × (String → Phase)

-- A new token, of a hash that no token has had.
unfoldable pub spec_issue : String → ℕ → ℕ → (String → Phase) → Answered
spec_issue hash user_id expires_at σ =
    if is_absent (σ hash)
    then (true, at_hash hash (λ _. Phase.live user_id expires_at) σ)
    else (false, σ)

-- The exchange of a token that is in a phase: only a live one that has not expired gives a new one, and
-- one that is rotated revokes every token of its user.
unfoldable pub spec_exchange :
    (ℕ → Bool) → ℕ → ℕ → String → String → (String → Phase) → Phase → Answered
spec_exchange known now expires_at hash fresh σ (Phase.live u e) =
    if ltb e now
    then (false, σ)
    else (if known u
        then spec_issue fresh u expires_at (at_hash hash rotate_phase σ)
        else (false, at_hash hash rotate_phase σ))
spec_exchange known now expires_at hash fresh σ (Phase.rotated u e) =
    if ltb e now then (false, σ) else (false, λ k. revoke_user u (σ k))
spec_exchange known now expires_at hash fresh σ _ = (false, σ)

unfoldable pub spec_rotate : (ℕ → Bool) → ℕ → ℕ → String → String → (String → Phase) → Answered
spec_rotate known now expires_at hash fresh σ =
    spec_exchange known now expires_at hash fresh σ (σ hash)

unfoldable pub spec_revoke : TokenSettings → Option String → (String → Phase) → Answered
spec_revoke settings none σ = (true, σ)
spec_revoke settings (some token) σ =
    (true, if same_text token "" then σ else at_hash (settings.sha256 token) revoke_phase σ)

module _ ⦃pf : Platform⦄ where
  abbrev pub user_row : World → ℕ → Option User
  user_row w id = find (λ u. u.id == id) (pf.rows w.users)

  abbrev pub known_user : World → ℕ → Bool
  known_user w id = is_some (user_row w id)

  -- What a call answers and leaves of the tokens, as the abstract machine has it.
  pub record Refines {A : Type 0} (w : World) (result : Outcome A × World) (spec : Answered)
      : Type 0 where
    pub answers : accepted result.0 ≡ spec.0
    pub leaves : phases result.1 ≡ spec.1
    pub distinct : HasDistinctTokens result.1
    pub users : result.1.users ≡ w.users
    pub now : result.1.now ≡ w.now
