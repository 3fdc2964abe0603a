-- ===== src/Domain/Cycle/Bounds.antt =====
-- The instants that crates/core/src/domain/analytic/model.rs takes the latest or the earliest of.
use yog_sothoth.Prelude.{
  ℕ, ◌+◌, ◌-◌, ◌<◌, ◌≤◌, ◌⊎◌, ◌≡◌, refl, Option, none, some, leb, ltb, arith, Bool-cases, inl, inr,
}
use yog_sothoth.Domain.Time.{Instant, hour}
use yog_sothoth.Domain.Cycle.{
  tranche, hour_of, clamp_freeze, if_from, later_option, complete_hour, no_earlier, plus,
  first_to_write, later, after_last,
}

-- A freeze lies in what the cycle rewrites, before the hour it was asked for and the complete one.
pub clamp_freeze_bounds :
    (from through h : ℕ) (at complete : Option ℕ)
    → clamp_freeze from through at complete ≡ some h
    → (from ≤ h)
      × (h ≤ through)
      × ((a : ℕ) → at ≡ some a → h ≤ a)
      × ((c : ℕ) × (complete ≡ some c) × (h ≤ c))
clamp_freeze_bounds from through h (some at) (some complete) e =
    (ground arith, ground arith, (λ a p. ground arith), (complete, refl, ground arith))
clamp_freeze_bounds from through h none complete e = absurd (cc)
clamp_freeze_bounds from through h (some at) none e = absurd (cc)

pub no_earlier_bounds :
    (d at : ℕ) (o : Option ℕ)
    → (at ≤ no_earlier (plus d o) at) × ((b : ℕ) → o ≡ some b → b + d ≤ no_earlier (plus d o) at)
no_earlier_bounds d at none = (omega arith, λ b e. absurd (cc))
no_earlier_bounds d at (some a) = (ground arith, λ b e. ground arith)

-- The last tranche written is the cycle's own, or one written before.
pub later_option_cases :
    (from through c : ℕ) (last : Option ℕ)
    → later_option (if_from from through) last ≡ some c
    → (c ≡ through) × (from ≤ through) ⊎ (last ≡ some c)
later_option_cases from through c none e = elim (Bool-cases (leb from through)) [
  | inl own ↦ inl (ground arith, ground arith)
  | inr other ↦ absurd (ground arith)
]
later_option_cases from through c (some l) e = elim (Bool-cases (leb from through)) [
  | inl own ↦ elim (Bool-cases (leb through l)) [
    | inl older ↦ inr (ground arith)
    | inr newer ↦ inl (ground arith, ground arith)
  ]
  | inr other ↦ inr (ground arith)
]

pub complete_hour_last :
    (last : Option ℕ) (c h : ℕ)
    → complete_hour last ≡ some c
    → h ≤ c
    → (l : ℕ) × (last ≡ some l) × (c ≡ hour_of (l + tranche) - hour)
complete_hour_last none c h e le = absurd (cc)
complete_hour_last (some l) c h e le = (l, refl, ground arith)

-- A bound from below that is no later than both of its reasons.
pub no_earlier_least :
    (d at x : ℕ) (o : Option ℕ)
    → at ≤ x
    → ((b : ℕ) → o ≡ some b → b + d ≤ x)
    → no_earlier (plus d o) at ≤ x
no_earlier_least d at x none low h = low
no_earlier_least d at x (some b) low h = let bound = h b refl in ground (arith, bound)

pub later_least : (a b x : ℕ) → a ≤ x → b ≤ x → later a b ≤ x
later_least a b x low high = ground arith

pub after_last_least :
    (from x : ℕ) (o : Option ℕ)
    → from ≤ x
    → ((l : ℕ) → o ≡ some l → l + tranche ≤ x)
    → after_last o from ≤ x
after_last_least from x none low after = low
after_last_least from x (some l) low after = after l refl

-- Where no tranche valued covers an instant, each of them ends before it.
pub valued_or_after :
    (x : ℕ) (o : Option ℕ)
    → ((l : ℕ) × (o ≡ some l) × (x < l + tranche)) ⊎ ((l : ℕ) → o ≡ some l → l + tranche ≤ x)
valued_or_after x none = inr (λ l e. absurd (cc))
valued_or_after x (some l) = elim (Bool-cases (ltb x (l + tranche))) [
  | inl before ↦ inl (l, refl, ground arith)
  | inr after ↦ inr (λ k e. ground arith)
]

pub first_to_write_pos :
    (frozen first : Option Instant) (current : Instant)
    → 0 < current
    → ((f : ℕ) → first ≡ some f → 0 < f)
    → 0 < first_to_write frozen first current
first_to_write_pos (some f) first current pos h = omega arith
first_to_write_pos none (some f) current pos h = h f refl
first_to_write_pos none none current pos h = pos
