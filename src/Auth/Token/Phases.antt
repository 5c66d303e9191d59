-- ===== src/Auth/Token/Phases.antt =====
-- The refresh tokens as a function from hashes to phases, which forgets the rows and their ids
-- (src/modules/auth/services/token.service.ts).
use Prim.Native.String.{String}
use text.Mathlib.Text.{◌==◌ as same_text}
use text.Mathlib.TextEquality.{eq_iff}
use mathlib.Core.Option
use mathlib.Core.Option.{some-injective}
use mathlib.Core.Bool.{false≢true}
use obbian_ribe_booking_app.Base.{
  ℕ, ◌<◌, ◌≡◌, refl, ◌==◌, Bool, true, false, not, ◌&&◌, Option, none, some, is_some, if◌then◌else◌,
  find, find-map_where, find-satisfies, arith, Option-cases, inl, inr, Bool-cases, ==-refl, ==_iff,
  ap, sym, ◌∙◌,
}
use obbian_ribe_booking_app.Platform.{Platform}
use obbian_ribe_booking_app.World.{World}
use obbian_ribe_booking_app.Schema.{RefreshToken}
use obbian_ribe_booking_app.Auth.Token.{has_hash, revoked_patch, rotated_patch}

-- What a text is as a refresh token; with its user and the time at which it expires.
pub data Phase : Type 0 where
  absent : Phase
  live : ℕ → ℕ → Phase
  rotated : ℕ → ℕ → Phase
  revoked : Phase

unfoldable pub row_phase : RefreshToken → Phase
row_phase r =
    if is_some r.revoked_at
    then Phase.revoked
    else (if is_some r.rotated_at
        then Phase.rotated r.user_id r.expires_at
        else Phase.live r.user_id r.expires_at)

unfoldable pub found_phase : Option RefreshToken → Phase
found_phase none = Phase.absent
found_phase (some r) = row_phase r

unfoldable pub revoke_phase : Phase → Phase
revoke_phase Phase.absent = Phase.absent
revoke_phase _ = Phase.revoked

unfoldable pub revoke_user : ℕ → Phase → Phase
revoke_user user_id (Phase.live u e) = if u == user_id then Phase.revoked else Phase.live u e
revoke_user user_id (Phase.rotated u e) = if u == user_id then Phase.revoked else Phase.rotated u e
revoke_user user_id p = p

unfoldable pub rotate_phase : Phase → Phase
rotate_phase (Phase.live u e) = Phase.rotated u e
rotate_phase p = p

-- The change of the phase of one hash.
unfoldable pub at_hash : String → (Phase → Phase) → (String → Phase) → String → Phase
at_hash hash f phases k = if same_text k hash then f (phases k) else phases k

module _ ⦃pf : Platform⦄ where
  abbrev pub token_row : World → String → Option RefreshToken
  token_row w hash = find (has_hash hash) (pf.rows w.refresh_tokens)

  unfoldable pub phases : World → String → Phase
  phases w hash = found_phase (token_row w hash)

  -- No two hashes have rows with one id, and the ids drawn next are new.
  pub record HasDistinctTokens (w : World) : Type 0 where
    pub below : (k : String) (r : RefreshToken) → token_row w k ≡ some r → r.id < w.next_id
    pub apart :
        (j k : String) (r s : RefreshToken)
        → token_row w j ≡ some r
        → token_row w k ≡ some s
        → r.id ≡ s.id
        → j ≡ k

  abbrev pub updated : (RefreshToken → Bool) → (RefreshToken → RefreshToken) → World → World
  updated hit patch w = record w { refresh_tokens = pf.update hit patch w.refresh_tokens }

  pub token_row-updated :
      (hit : RefreshToken → Bool) (patch : RefreshToken → RefreshToken) (w : World) (k : String)
      → ((r : RefreshToken) → (patch r).token_hash ≡ r.token_hash)
      → token_row (updated hit patch w) k
        ≡ Option.map (λ r. if hit r then patch r else r) (token_row w k)
  token_row-updated hit patch w k keeps = rw (pf.rows-update hit patch w.refresh_tokens) (
      find-map_where (has_hash k) hit patch (pf.rows w.refresh_tokens)
        (λ r. ap (λ h. same_text h k) (keeps r)))

  -- A change of the rows is a change of the phases, if it is one of each row.
  phases-updated :
      (hit : RefreshToken → Bool) (patch : RefreshToken → RefreshToken) (f : Phase → Phase)
      (w : World) (k : String)
      → ((r : RefreshToken) → (patch r).token_hash ≡ r.token_hash)
      → f Phase.absent ≡ Phase.absent
      → ((r : RefreshToken)
          → token_row w k ≡ some r
          → row_phase (if hit r then patch r else r) ≡ f (row_phase r))
      → phases (updated hit patch w) k ≡ f (phases w k)
  unfolding phases found_phase
  phases-updated hit patch f w k keeps none_stays each = elim (Option-cases (token_row w k)) [
    | inl missing ↦ rw (token_row-updated hit patch w k keeps, missing) (sym none_stays)
    | inr (r, found) ↦ rw (token_row-updated hit patch w k keeps, found) (each r found)
  ]

  pub row_hash :
      (w : World) (k : String) (r : RefreshToken) → token_row w k ≡ some r → r.token_hash ≡ k
  row_hash w k r found =
      (eq_iff r.token_hash k).0 (find-satisfies (has_hash k) (pf.rows w.refresh_tokens) found)

  pub phases-revoke :
      (now : ℕ) (hash : String) (w : World) (k : String)
      → phases (updated (has_hash hash) (revoked_patch now) w) k
        ≡ at_hash hash revoke_phase (phases w) k
  unfolding at_hash revoked_patch row_phase revoke_phase
  phases-revoke now hash w k =
      phases-updated (has_hash hash) (revoked_patch now)
        (λ p. if same_text k hash then revoke_phase p else p) w k (λ r. refl) (ground arith)
        (λ r found. rw (row_hash w k r found) (ground arith))

  pub phases-revoke_user :
      (now user_id : ℕ) (w : World) (k : String)
      → phases
          (updated (λ r. r.user_id == user_id && not (is_some r.revoked_at)) (revoked_patch now) w)
          k
        ≡ revoke_user user_id (phases w k)
  unfolding revoked_patch row_phase revoke_user
  phases-revoke_user now user_id w k =
      phases-updated (λ r. r.user_id == user_id && not (is_some r.revoked_at)) (revoked_patch now)
        (revoke_user user_id) w k (λ r. refl) refl (λ r found. (ground arith))

  -- The row of one hash is the row of another just if the hashes are one.
  same_row :
      (w : World) (j k : String) (r s : RefreshToken)
      → HasDistinctTokens w
      → token_row w j ≡ some r
      → token_row w k ≡ some s
      → r.id == s.id ≡ same_text j k
  same_row w j k r s distinct at_j at_k = elim (Bool-cases (same_text j k)) [
    | inl same ↦
        let one : r ≡ s =
          some-injective r s (sym at_j ∙ ap (token_row w) ((eq_iff j k).0 same) ∙ at_k) in
        rw (same, one) (==-refl s.id)
    | inr different ↦ elim (Bool-cases (r.id == s.id)) [
      | inl one ↦ absurd (
          false≢true (
            sym different
            ∙ (eq_iff j k).1 (distinct.apart j k r s at_j at_k ((==_iff r.id s.id).0 one))))
      | inr two ↦ two ∙ sym different
    ]
  ]

  pub phases-rotate :
      (now : ℕ) (hash : String) (stored : RefreshToken) (w : World) (k : String)
      → HasDistinctTokens w
      → token_row w hash ≡ some stored
      → phases (updated (λ r. r.id == stored.id) (rotated_patch now) w) k
        ≡ at_hash hash rotate_phase (phases w) k
  unfolding at_hash rotated_patch row_phase rotate_phase
  phases-rotate now hash stored w k distinct held =
      phases-updated (λ r. r.id == stored.id) (rotated_patch now)
        (λ p. if same_text k hash then rotate_phase p else p) w k (λ r. refl) (ground arith)
        (λ r found.
          rw (same_row w k hash r stored distinct found held) (patched (same_text k hash) r))
    where
      patched :
          (b : Bool) (r : RefreshToken)
          → row_phase (if b then rotated_patch now r else r)
            ≡ (if b then rotate_phase (row_phase r) else row_phase r)
      patched true r = ground arith
      patched false r = refl
