-- ===== src/Amm/Dlmm.antt =====
-- crates/core/src/amm/dlmm.rs: the base fee and the ceiling of the variable fee. A `Decimal` is given
-- as a whole number of its smallest step here: ten-thousandths of a basis point for the base fee, and
-- hundred-thousandths for the variable one.
use yog_sothoth.Prelude.{
  ℕ, zero, suc, ◌+◌, ◌-◌, ◌*◌, ◌/◌, ◌^◌, ◌≤◌, ◌<◌, min, ◌≡◌, ◌∙◌, ap, sym, Option, none, some, ltb,
  leb, arith, if◌then◌else◌,
}
use yog_sothoth.Prelude.Machine.{checked_mul}
use native.Mathlib.Nat.{pow-succ', one-le-pow, mul_assoc, mul-le-mul, mul-le-mul_left}

-- `MAX_FEE_BPS`, 1 000 basis points, in the two units.
abbrev pub max_fee : ℕ
max_fee = 10_000_000

abbrev pub max_variable_fee : ℕ
max_variable_fee = 100_000_000

abbrev pub variable_fee_scale : ℕ
variable_fee_scale = 100_000_000_000

abbrev pub variable_fee_saturation_numerator : ℕ
variable_fee_saturation_numerator = 100_000_000 * variable_fee_scale

-- The loop over the power factor, and the cap after it.
unfoldable pub raise : ℕ → ℕ → ℕ
raise zero fee = min fee max_fee
raise (suc k) fee = if leb max_fee fee then max_fee else raise k (fee * 10)

unfoldable pub base_fee_bps : ℕ → ℕ → ℕ → ℕ
base_fee_bps base_factor bin_step base_fee_power_factor =
    raise base_fee_power_factor (base_factor * bin_step)

abbrev div_ceil : ℕ → ℕ → ℕ
div_ceil a b = (a + (b - 1)) / b

abbrev or_max : Option ℕ → (ℕ → ℕ) → ℕ
or_max none next = max_variable_fee
or_max (some n) next = next n

abbrev variable_rate : ℕ → ℕ
variable_rate numerator =
    if ltb variable_fee_saturation_numerator numerator
    then max_variable_fee
    else div_ceil numerator variable_fee_scale

unfoldable pub max_variable_fee_bps : ℕ → ℕ → ℕ → ℕ
max_variable_fee_bps variable_fee_control max_volatility_accumulator bin_step =
    let accumulated = max_volatility_accumulator * bin_step in
    or_max (checked_mul 128 accumulated accumulated)
      (λ squared. or_max (checked_mul 128 squared variable_fee_control) variable_rate)

raise_lem : (k fee : ℕ) → raise k fee ≡ min (fee * 10 ^ k) max_fee
unfolding raise
raise_lem zero fee = omega arith
raise_lem (suc k) fee =
    let step : fee * 10 * 10 ^ k ≡ fee * 10 ^ suc k =
      mul_assoc fee 10 (10 ^ k) ∙ ap (λ n. fee * n) (sym (pow-succ' 10 k)) in
    let grown : fee * 1 ≤ fee * 10 ^ suc k =
      mul-le-mul_left fee (one-le-pow (suc k) 10 (omega arith)) in
    ground (arith, raise_lem k (fee * 10), step, grown)

-- The base fee is the formula's, capped: stopping early changes nothing.
pub base_fee_bps_lem :
    (factor step power : ℕ)
    → base_fee_bps factor step power ≡ min (factor * step * 10 ^ power) max_fee
unfolding base_fee_bps
base_fee_bps_lem factor step power = raise_lem power (factor * step)

-- On u32 and u16 inputs no product overflows, and the ceiling of the variable fee is the formula's,
-- rounded up and capped.
pub max_variable_fee_bps_lem :
    (control accumulator step : ℕ)
    → control < 2 ^ 32
    → accumulator < 2 ^ 32
    → step < 2 ^ 16
    → max_variable_fee_bps control accumulator step
      ≡ min
          ((accumulator * step * (accumulator * step) * control + (variable_fee_scale - 1))
            / variable_fee_scale)
          max_variable_fee
unfolding max_variable_fee_bps checked_mul
max_variable_fee_bps_lem control accumulator step c a s =
    let x : accumulator * step ≤ 281_470_681_677_825 =
      mul-le-mul {n₂ = 4_294_967_295} {m₂ = 65_535} (omega arith) (omega arith) in
    let y : accumulator * step * (accumulator * step) ≤ 281_470_681_677_825 * 281_470_681_677_825 =
      mul-le-mul x x in
    let z = mul-le-mul {m₁ = control} {m₂ = 4_294_967_295} y (omega arith) in
    ground (arith, x, y, z)
