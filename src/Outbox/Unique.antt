-- ===== src/Outbox/Unique.antt =====
-- The events of the outbox with ids of their own, and how a run makes them lighter
-- (src/common/events/outbox.service.ts).
use obbian_ribe_booking_app.Base.{
  ℕ, ◌≤◌, ◌<◌, ◌≡◌, refl, sym, ap, ◌∙◌, ◌==◌, ==_iff, Bool, true, false, ◌&&◌, ◌||◌, List, [], ◌∷◌,
  ◌⊎◌, inl, inr, map, ltb, select, sum_by, Bool-cases, arith,
}
use obbian_ribe_booking_app.Schema.{OutboxEvent, OutboxStatus, same_outbox_status}
use obbian_ribe_booking_app.Outbox.Relay.{is_claimable, includes_event}
use obbian_ribe_booking_app.Outbox.Round.{All, All-mono, is_open, weight}

-- No two events have one id.
unfoldable pub HasUniqueIds : List OutboxEvent → Type 0
HasUniqueIds es = All (λ e. All (λ f. f.id ≡ e.id → f ≡ e) es) es

pub All-both :
    (P Q : OutboxEvent → Type 0) (es : List OutboxEvent)
    → All P es
    → All Q es
    → All (λ e. P e × Q e) es
unfolding All
All-both P Q [] ps qs = tt
All-both P Q (e ∷ es) (p, ps) (q, qs) = ((p, q), All-both P Q es ps qs)

pub All-map :
    (P : OutboxEvent → Type 0) (g : OutboxEvent → OutboxEvent) (es : List OutboxEvent)
    → All (λ e. P (g e)) es
    → All P (map g es)
unfolding All
All-map P g [] all = tt
All-map P g (e ∷ es) (p, all) = (p, All-map P g es all)

pub map-HasUniqueIds :
    (g : OutboxEvent → OutboxEvent) (es : List OutboxEvent)
    → ((e : OutboxEvent) → (g e).id ≡ e.id)
    → HasUniqueIds es
    → HasUniqueIds (map g es)
unfolding HasUniqueIds
map-HasUniqueIds g es keeps all =
    All-map (λ e. All (λ f. f.id ≡ e.id → f ≡ e) (map g es)) g es
      (All-mono (λ e. All (λ f. f.id ≡ e.id → f ≡ e) es)
        (λ e. All (λ f. f.id ≡ (g e).id → f ≡ g e) (map g es)) es
        (λ e same.
          All-map (λ f. f.id ≡ (g e).id → f ≡ g e) g es
            (All-mono (λ f. f.id ≡ e.id → f ≡ e) (λ f. (g f).id ≡ (g e).id → g f ≡ g e) es
              (λ f one h. ap g (one (sym (keeps f) ∙ h ∙ keeps e))) same))
        all)

-- What holds of every row with an id that is included.
pub hit_elim :
    (Q : Type 0) (i : ℕ) (rows : List OutboxEvent)
    → includes_event rows i ≡ true
    → All (λ row. row.id ≡ i → Q) rows
    → Q
unfolding All
hit_elim Q i [] hit all = absurd (ground arith)
hit_elim Q i (row ∷ rows) hit (q, all) = elim (Bool-cases (row.id == i)) [
  | inl here ↦ q ((==_iff row.id i).0 here)
  | inr other ↦ hit_elim Q i rows (ground arith) all
]

pub select_holds :
    (p : OutboxEvent → Bool) (es : List OutboxEvent) → All (λ e. p e ≡ true) (select p es)
unfolding All select
select_holds p [] = tt
select_holds p (e ∷ es) = elim (Bool-cases (p e)) [
  | inl hit ↦ rw hit (hit, select_holds p es)
  | inr miss ↦ rw miss (select_holds p es)
]

pub is_claimable-is_open :
    (cutoff : ℕ) (e : OutboxEvent) → is_claimable cutoff e ≡ true → is_open e.status ≡ true
unfolding is_claimable same_outbox_status
is_claimable-is_open cutoff e h = go e.status h
  where
    go :
        (s : OutboxStatus)
        → (same_outbox_status s OutboxStatus.pending
            || (same_outbox_status s OutboxStatus.processing && ltb e.updated_at cutoff))
          ≡ true
        → is_open s ≡ true
    go OutboxStatus.pending h = refl
    go OutboxStatus.processing h = refl
    go OutboxStatus.published h = h
    go OutboxStatus.failed h = h

module _ (max_attempts : ℕ) (g : OutboxEvent → OutboxEvent) (hit : OutboxEvent → Bool) where
  abbrev pub Lighter : OutboxEvent → Type 0
  Lighter e = ((hit e ≡ false) × (g e ≡ e)) ⊎ (weight max_attempts (g e) < weight max_attempts e)

  Lighter-le : (e : OutboxEvent) → Lighter e → weight max_attempts (g e) ≤ weight max_attempts e
  Lighter-le e (inl (_, same)) = omega (arith, ap (weight max_attempts) same)
  Lighter-le e (inr less) = omega arith

  sum-weight_le :
      (es : List OutboxEvent)
      → All Lighter es
      → sum_by (weight max_attempts) (map g es) ≤ sum_by (weight max_attempts) es
  unfolding All
  sum-weight_le [] all = omega arith
  sum-weight_le (e ∷ es) (l, all) = omega (arith, sum-weight_le es all, Lighter-le e l)

  pub sum-weight :
      (es : List OutboxEvent)
      → All Lighter es
      → (sum_by (weight max_attempts) (map g es) < sum_by (weight max_attempts) es)
        ⊎ All (λ e. hit e ≡ false) es
  unfolding All
  sum-weight [] all = inr tt
  sum-weight (e ∷ es) (inr less, all) = inl (omega (arith, sum-weight_le es all))
  sum-weight (e ∷ es) (inl (miss, same), all) = elim (sum-weight es all) [
    | inl less ↦ inl (omega (arith, ap (weight max_attempts) same))
    | inr none_hit ↦ inr (miss, none_hit)
  ]
