-- ===== src/Auth/Token/Rows.antt =====
-- The refresh tokens of TokenService (src/modules/auth/services/token.service.ts):
-- the rows after an update and an insertion.
use Prim.Native.String.{String}
use text.Mathlib.Text.{◌==◌ as same_text}
use text.Mathlib.TextEquality.{eq_iff}
use text.Mathlib.TextPositions.{eq_refl}
use mathlib.Core.Option
use mathlib.Core.Option.{some-injective}
use mathlib.Core.Bool.{false≢true}
use obbian_ribe_booking_app.Base.{
  ◌≡◌, refl, Bool, true, false, none, some, ◌⊎◌, if◌then◌else◌, find-append, arith, Option-cases,
  Bool-cases, inl, inr, ap, sym, ◌∙◌,
}
use obbian_ribe_booking_app.Platform.{Platform}
use obbian_ribe_booking_app.World.{World}
use obbian_ribe_booking_app.Schema.{RefreshToken}
use obbian_ribe_booking_app.Auth.Token.{has_hash, insert_token}
use obbian_ribe_booking_app.Auth.Token.Phases.{
  row_phase, found_phase, at_hash, token_row, phases, HasDistinctTokens, updated, token_row-updated,
}

module _ ⦃pf : Platform⦄ where
  -- Only the tokens change, and no id of a row.
  pub updated-HasDistinctTokens :
      (hit : RefreshToken → Bool) (patch : RefreshToken → RefreshToken) (w : World)
      → ((r : RefreshToken) → (patch r).token_hash ≡ r.token_hash)
      → ((r : RefreshToken) → (patch r).id ≡ r.id)
      → HasDistinctTokens w
      → HasDistinctTokens (updated hit patch w)
  updated-HasDistinctTokens hit patch w keeps same d = record {
    below = λ k r at_k. let (s, found, one) = old k r at_k in omega (arith, one, d.below k s found);
    apart = λ j k r s at_j at_k e.
        let (q, at_q, e_q) = old j r at_j in
        let (p, at_p, e_p) = old k s at_k in d.apart j k q p at_q at_p (omega (arith, e, e_q, e_p));
  }
    where
      same_id : (b : Bool) (r : RefreshToken) → (if b then patch r else r).id ≡ r.id
      same_id true r = same r
      same_id false r = refl

      old :
          (k : String) (r : RefreshToken)
          → token_row (updated hit patch w) k ≡ some r
          → (s : RefreshToken) × (token_row w k ≡ some s) × (r.id ≡ s.id)
      old k r at_k = elim (Option-cases (token_row w k)) [
        | inl missing ↦ absurd (ground (arith, token_row-updated hit patch w k keeps))
        | inr (s, found) ↦ (
          s,
          found,
          ap (λ o. o.id)
                (some-injective r (if hit s then patch s else s) (
                  sym at_k
                  ∙ token_row-updated hit patch w k keeps
                  ∙ ap (Option.map (λ r. if hit r then patch r else r)) found))
              ∙ same_id (hit s) s,
        )
      ]

  text_sym : (s t : String) → same_text s t ≡ false → same_text t s ≡ false
  text_sym s t h = elim (Bool-cases (same_text t s)) [
    | inl same ↦ absurd (false≢true (sym h ∙ (eq_iff s t).1 (sym ((eq_iff t s).0 same))))
    | inr other ↦ other
  ]

  pub token_row-insert_token :
      (r : RefreshToken) (w : World) (k : String)
      → token_row w r.token_hash ≡ none
      → token_row (insert_token r w) k
        ≡ (if same_text k r.token_hash then some r else token_row w k)
  token_row-insert_token r w k free = elim (Bool-cases (same_text k r.token_hash)) [
    | inl same ↦
        rw
          (
            (eq_iff k r.token_hash).0 same,
            pf.rows-insert r w.refresh_tokens,
            find-append (has_hash r.token_hash) (pf.rows w.refresh_tokens) r,
          )
          (ground (arith, eq_refl r.token_hash))
    | inr other ↦
        rw
          (
            pf.rows-insert r w.refresh_tokens,
            find-append (has_hash k) (pf.rows w.refresh_tokens) r,
            other,
          )
          (ground (arith, text_sym k r.token_hash other))
  ]

  pub phases-insert_token :
      (r : RefreshToken) (w : World)
      → token_row w r.token_hash ≡ none
      → phases (insert_token r w) ≡ at_hash r.token_hash (λ _. row_phase r) (phases w)
  unfolding phases at_hash found_phase
  phases-insert_token r w free = λ i k. here k i
    where
      here :
          (k : String)
          → phases (insert_token r w) k ≡ at_hash r.token_hash (λ _. row_phase r) (phases w) k
      here k = ap found_phase (token_row-insert_token r w k free) ∙ ground arith

  pub insert_token-HasDistinctTokens :
      (r : RefreshToken) (w : World)
      → token_row w r.token_hash ≡ none
      → r.id ≡ w.next_id
      → HasDistinctTokens w
      → HasDistinctTokens (insert_token r w)
  insert_token-HasDistinctTokens r w free new d = record {
    below = λ k s at_k. elim (old k s at_k) [
      | inl (same, _) ↦ omega (arith, new, ap (λ t. t.id) same)
      | inr found ↦ omega (arith, d.below k s found)
    ];
    apart = λ j k s t at_j at_k e. elim (old j s at_j) [
      | inl (same, is_new) ↦ elim (old k t at_k) [
        | inl (_, too) ↦ is_new ∙ sym too
        | inr found ↦ absurd (omega (arith, new, e, ap (λ t. t.id) same, d.below k t found))
      ]
      | inr known ↦ elim (old k t at_k) [
        | inl (same, _) ↦ absurd (omega (arith, new, e, ap (λ t. t.id) same, d.below j s known))
        | inr found ↦ d.apart j k s t known found e
      ]
    ];
  }
    where
      old :
          (k : String) (s : RefreshToken)
          → token_row (insert_token r w) k ≡ some s
          → ((s ≡ r) × (k ≡ r.token_hash)) ⊎ (token_row w k ≡ some s)
      old k s at_k = elim (Bool-cases (same_text k r.token_hash)) [
        | inl same ↦ inl (
          some-injective s r (sym at_k ∙ token_row-insert_token r w k free ∙ ground arith),
          (eq_iff k r.token_hash).0 same,
        )
        | inr other ↦ inr (ground (arith, token_row-insert_token r w k free))
      ]
