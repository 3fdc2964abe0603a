-- ===== src/Amm/Schedule.antt =====
-- How the base fee of crates/core/src/amm/damm_v2.rs moves along its curve.
use yog_sothoth.Prelude.{
  ℕ, ◌+◌, ◌-◌, ◌*◌, ◌/◌, ◌≤◌, ◌≡◌, ◌≢◌, subst, ◌⊎◌, inl, inr, Bool-cases, true, some, ◌==◌, arith,
}
use yog_sothoth.Prelude.Machine.{checked_add, checked_mul, checked_sub}
use yog_sothoth.Amm.Fees.{
  scheduler_linear, FeeSchedulerParams, elapsed_periods, expiry_point, is_expired_at,
  base_fee_numerator_at, fee_of_kind, linear_fee, u16_max,
}
use native.Mathlib.Nat.{le-div_iff_mul-le, div-mul-le_self, mul-le-mul_right}

-- A period index never exceeds the number of periods.
elapsed_periods_bounded :
    (p : FeeSchedulerParams) (t : ℕ) → elapsed_periods p t ≤ p.number_of_period
unfolding elapsed_periods
elapsed_periods_bounded p t = ground arith

div_mono : (m n k : ℕ) → m ≤ n → k ≢ 0 → m / k ≤ n / k
div_mono m n k h ne = (le-div_iff_mul-le (omega arith)).1 (omega (arith, div-mul-le_self m k))

-- From the activation on, time only moves along the curve.
pub elapsed_periods_rises :
    (p : FeeSchedulerParams) (s t : ℕ)
    → p.activation_point ≤ s
    → s ≤ t
    → elapsed_periods p s ≤ elapsed_periods p t
unfolding elapsed_periods
elapsed_periods_rises p s t h le =
    let mono = div_mono (s - p.activation_point) (t - p.activation_point) p.period_frequency in
    ground (arith, mono)

-- Once a schedule with at most 65 535 periods of a length that is not zero has expired, its last
-- period is in force.
pub is_expired_at-elapsed :
    (p : FeeSchedulerParams) (t : ℕ)
    → p.number_of_period ≤ u16_max
    → p.period_frequency ≢ 0
    → is_expired_at p t ≡ true
    → elapsed_periods p t ≡ p.number_of_period
unfolding elapsed_periods is_expired_at expiry_point checked_mul checked_add
is_expired_at-elapsed p t w ne e = ground (
  arith,
  le-div_iff_mul-le {k = p.period_frequency} {x = p.number_of_period} {y = t - p.activation_point},
)

linear_lem :
    (cliff reduction period f : ℕ)
    → linear_fee cliff reduction period ≡ some f
    → f + period * reduction ≡ cliff
unfolding checked_mul checked_sub
linear_lem cliff reduction period f e = ground arith

at_period :
    (p : FeeSchedulerParams) (t f : ℕ)
    → p.kind ≡ scheduler_linear
    → base_fee_numerator_at p t ≡ some f
    → ((p.period_frequency ≡ 0) × (f ≡ p.cliff_fee_numerator))
      ⊎ (f + elapsed_periods p t * p.reduction_factor ≡ p.cliff_fee_numerator)
unfolding base_fee_numerator_at fee_of_kind checked_mul checked_sub
at_period p t f k e = elim (Bool-cases (p.period_frequency == 0)) [
  | inl z ↦ let e' = rw z at e in inl (ground arith)
  | inr n ↦ inr (
      (linear_lem p.cliff_fee_numerator p.reduction_factor (elapsed_periods p t) f
        (subst (λ kind. fee_of_kind kind p (elapsed_periods p t) ≡ some f) k (rw n at e))))
]

-- From the activation on, a linear schedule's fee never rises, and no value that is given exceeds
-- the cliff.
pub linear_fee_falls :
    (p : FeeSchedulerParams) (s t f g : ℕ)
    → p.kind ≡ scheduler_linear
    → p.activation_point ≤ s
    → s ≤ t
    → base_fee_numerator_at p s ≡ some f
    → base_fee_numerator_at p t ≡ some g
    → (g ≤ f) × (f ≤ p.cliff_fee_numerator)
unfolding base_fee_numerator_at fee_of_kind checked_mul checked_sub
linear_fee_falls p s t f g k h le ef eg =
    let more = mul-le-mul_right p.reduction_factor (elapsed_periods_rises p s t h le) in
    ground (arith, at_period p s f k ef, at_period p t g k eg, more)
