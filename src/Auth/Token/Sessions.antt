-- ===== src/Auth/Token/Sessions.antt =====
-- Sequences of calls of TokenService (src/modules/auth/services/token.service.ts): logins, refreshes and
-- logouts.
use Prim.Native.String.{String}
use obbian_ribe_booking_app.Base.{
  true, ℕ, ◌+◌, ◌*◌, is_some, find, ◌≡◌, refl, ◌==◌, Bool, Option, List, [], ◌∷◌, ap, ◌∙◌,
}
use obbian_ribe_booking_app.Platform.{Platform}
use obbian_ribe_booking_app.World.{World, wait_until, Outcome}
use obbian_ribe_booking_app.Schema.{User}
use obbian_ribe_booking_app.Auth.Token.{TokenSettings, issue_tokens, rotate, revoke}
use obbian_ribe_booking_app.Auth.Token.Phases.{Phase, phases, HasDistinctTokens}
use obbian_ribe_booking_app.Auth.Token.Machine.{
  accepted, Answered, spec_issue, spec_rotate, spec_revoke, known_user, Refines,
}
use obbian_ribe_booking_app.Auth.Token.Exchange.{issue_tokens-Refines}
use obbian_ribe_booking_app.Auth.Token.Refinement.{rotate-Refines, revoke-Refines}

pub data SessionCall : Type 0 where
  -- user, new refresh token, device
  logs_in : User → String → Option String → SessionCall
  -- refresh token, new one, device
  refreshes : String → String → Option String → SessionCall
  logs_out : Option String → SessionCall
  -- milliseconds that pass
  waits : ℕ → SessionCall

-- What the abstract machine does, with the users that exist and the time.
unfoldable pub spec_call :
    TokenSettings → (ℕ → Bool) → ℕ → SessionCall → (String → Phase) → Answered
spec_call settings known now (logs_in user token device) σ =
    spec_issue (settings.sha256 token) user.id (now + settings.refresh_ttl * 1000) σ
spec_call settings known now (refreshes token fresh device) σ =
    spec_rotate known now (now + settings.refresh_ttl * 1000) (settings.sha256 token)
      (settings.sha256 fresh) σ
spec_call settings known now (logs_out token) σ = spec_revoke settings token σ
spec_call settings known now (waits delay) σ = (true, σ)

-- The time after a call.
unfoldable pub time_after : ℕ → SessionCall → ℕ
time_after now (waits delay) = now + delay
time_after now _ = now

-- The answers to a sequence of calls, and the phases at its end.
unfoldable pub spec_run :
    TokenSettings
    → (ℕ → Bool)
    → ℕ
    → List SessionCall
    → (String → Phase)
    → List Bool × (String → Phase)
spec_run settings known now [] σ = ([], σ)
spec_run settings known now (c ∷ cs) σ =
    let (answer, τ) = spec_call settings known now c σ in
    let (answers, υ) = spec_run settings known (time_after now c) cs τ in (answer ∷ answers, υ)

module _ ⦃pf : Platform⦄ (settings : TokenSettings) where
  abbrev answered : {A : Type 0} → Outcome A × World → Bool × World
  answered r = (accepted r.0, r.1)

  unfoldable pub session_call : SessionCall → World → Bool × World
  session_call (logs_in user token device) w = answered (issue_tokens settings user token device w)
  session_call (refreshes token fresh device) w = answered (rotate settings token fresh device w)
  session_call (logs_out token) w = answered (revoke settings token w)
  session_call (waits delay) w = (true, wait_until (w.now + delay) w)

  unfoldable pub session_run : List SessionCall → World → List Bool × World
  session_run [] w = ([], w)
  session_run (c ∷ cs) w =
      let (answer, v) = session_call c w in
      let (answers, u) = session_run cs v in (answer ∷ answers, u)

  record Follows (w : World) (later : ℕ) (result : Bool × World) (spec : Answered) : Type 0 where
    answers : result.0 ≡ spec.0
    leaves : phases result.1 ≡ spec.1
    distinct : HasDistinctTokens result.1
    users : result.1.users ≡ w.users
    now : result.1.now ≡ later

  Refines-Follows :
      {A : Type 0} (w : World) {result : Outcome A × World} {spec : Answered}
      → Refines w result spec
      → Follows w w.now (answered result) spec
  Refines-Follows w t = record {
    answers = t.answers;
    leaves = t.leaves;
    distinct = t.distinct;
    users = t.users;
    now = t.now;
  }

  phases-wait_until : (later : ℕ) (w : World) → phases (wait_until later w) ≡ phases w
  unfolding phases
  phases-wait_until later w = refl

  wait_until-HasDistinctTokens :
      (later : ℕ) (w : World) → HasDistinctTokens w → HasDistinctTokens (wait_until later w)
  wait_until-HasDistinctTokens later w d = record { below = d.below; apart = d.apart }

  session_call-Follows :
      (c : SessionCall) (w : World)
      → HasDistinctTokens w
      → Follows w
          (time_after w.now c)
          (session_call c w)
          (spec_call settings (known_user w) w.now c (phases w))
  unfolding session_call spec_call time_after
  session_call-Follows (logs_in user token device) w d =
      Refines-Follows w (issue_tokens-Refines settings user token device w d)
  session_call-Follows (refreshes token fresh device) w d =
      Refines-Follows w (rotate-Refines settings token fresh device w d)
  session_call-Follows (logs_out token) w d = Refines-Follows w (revoke-Refines settings token w d)
  session_call-Follows (waits delay) w d = record {
    answers = refl;
    leaves = phases-wait_until (w.now + delay) w;
    distinct = wait_until-HasDistinctTokens (w.now + delay) w d;
    users = refl;
    now = refl;
  }

  -- What the abstract machine does after its first call.
  abbrev after : SessionCall → List SessionCall → World → List Bool × (String → Phase)
  after c cs w =
      spec_run settings (known_user w) (time_after w.now c) cs
        (spec_call settings (known_user w) w.now c (phases w)).1

  spec_run-Follows :
      (c : SessionCall) (cs : List SessionCall) (w : World)
      → Follows w
          (time_after w.now c)
          (session_call c w)
          (spec_call settings (known_user w) w.now c (phases w))
      → let v = (session_call c w).1 in
        spec_run settings (known_user v) v.now cs (phases v) ≡ after c cs w
  spec_run-Follows c cs w t = λ i.
      spec_run settings (λ id. is_some (find (λ u. u.id == id) (pf.rows (t.users i)))) (t.now i) cs
        (t.leaves i)

  -- Any sequence of logins, refreshes, logouts and pauses, from refresh tokens with distinct ids
  -- that have all been drawn, answers as the abstract machine on phases does, and leaves the
  -- refresh tokens in the phases with which the machine ends; again their ids are distinct and
  -- drawn.
  pub session_run-spec_run :
      (cs : List SessionCall) (w : World)
      → HasDistinctTokens w
      → let (answers, v) = session_run cs w in
        ((answers, phases v) ≡ spec_run settings (known_user w) w.now cs (phases w))
        × HasDistinctTokens v
  unfolding session_run spec_run
  session_run-spec_run [] w d = (refl, d)
  session_run-spec_run (c ∷ cs) w d =
      let t = session_call-Follows c w d in
      let v = (session_call c w).1 in
      let (ih, distinct) = session_run-spec_run cs v t.distinct in
      (
        ap (λ r. ((session_call c w).0 ∷ r.0, r.1)) (ih ∙ spec_run-Follows c cs w t)
            ∙ ap (λ b. (b ∷ (after c cs w).0, (after c cs w).1)) t.answers,
        distinct,
      )
