-- ===== src/Amm/Fees.antt =====
-- crates/core/src/amm/damm_v2.rs: the shapes of a base fee, and where it stands on its curve. Amounts
-- and points are `u64`, periods `u16`, fixed-point numbers `u128` with 64 fractional bits.
use yog_sothoth.Prelude.{
  ℕ, suc, zero, ◌-◌, ◌*◌, ◌/◌, ◌%◌, ◌^◌, min, Bool, false, ◌&&◌, ◌||◌, not, Option, none, some, ltb,
  leb, ◌==◌, if◌then◌else◌,
}
use yog_sothoth.Prelude.Machine.{checked_add, checked_mul, checked_sub, checked_div, checked_shl}
use Prim.Native.String.{String}
use yog_sothoth.Domain.Protocols.{Result, ok, err}
use yog_sothoth.Domain.Errors.{CoreError, fee_decode}
use yog_sothoth.Amm.Common.{Call, or_overflow, or_return, price_impact}

pub data BaseFeeKind : Type 0 where
  constant scheduler_linear scheduler_exponential rate_limiter : BaseFeeKind
  market_cap_scheduler_linear market_cap_scheduler_exponential : BaseFeeKind

unfoldable pub as_str : BaseFeeKind → String
as_str constant = "constant"
as_str scheduler_linear = "scheduler_linear"
as_str scheduler_exponential = "scheduler_exponential"
as_str rate_limiter = "rate_limiter"
as_str market_cap_scheduler_linear = "market_cap_scheduler_linear"
as_str market_cap_scheduler_exponential = "market_cap_scheduler_exponential"

abbrev pub is_scheduler_mode : ℕ → Bool
is_scheduler_mode mode = mode == 0 || mode == 1 || mode == 3 || mode == 4

-- `unknown` is the text of the error, which quotes the mode.
unfoldable pub base_fee_kind_from : (ℕ → String) → ℕ → ℕ → Result CoreError BaseFeeKind
base_fee_kind_from unknown mode number_of_period =
    if is_scheduler_mode mode && (number_of_period == 0)
    then ok constant
    else if mode == 0
    then ok scheduler_linear
    else if mode == 1
    then ok scheduler_exponential
    else if mode == 2
    then ok rate_limiter
    else if mode == 3
    then ok market_cap_scheduler_linear
    else if mode == 4
    then ok market_cap_scheduler_exponential
    else err (fee_decode (unknown mode))

unfoldable pub fee_adjusted_amount : ℕ → ℕ → Result CoreError ℕ
fee_adjusted_amount amount_in fee_bps =
    or_overflow "fee_adjusted_amount: amount_in * fee_bps overflows"
      (checked_mul 128 amount_in fee_bps) (λ scaled. ok (amount_in - scaled / 10_000))

unfoldable pub net_price_impact : ℕ → ℕ → ℕ → ℕ → Call ℕ
net_price_impact reserve_a reserve_b amount_in fee_bps =
    or_return (fee_adjusted_amount amount_in fee_bps) (price_impact reserve_a reserve_b)

abbrev pub u16_max : ℕ
u16_max = 65_535

abbrev pub one_q64 : ℕ
one_q64 = 2 ^ 64

abbrev pub max_exponential : ℕ
max_exponential = 524_288

abbrev pub u128_max : ℕ
u128_max = 340_282_366_920_938_463_463_374_607_431_768_211_455

pub record FeeSchedulerParams : Type 0 where
  pub cliff_fee_numerator : ℕ
  pub number_of_period : ℕ
  pub period_frequency : ℕ
  pub reduction_factor : ℕ
  pub activation_point : ℕ
  pub activation_type : ℕ
  pub kind : BaseFeeKind

-- `?` on an option.
abbrev pub and_then : {A B : Type 0} → Option A → (A → Option B) → Option B
and_then none next = none
and_then (some a) next = next a

unfoldable pub expiry_point : FeeSchedulerParams → Option ℕ
expiry_point p =
    and_then (checked_mul 64 p.number_of_period p.period_frequency)
      (checked_add 64 p.activation_point)

abbrev pub is_past : ℕ → Option ℕ → Bool
is_past current_point none = false
is_past current_point (some expiry) = ltb expiry current_point

unfoldable pub is_expired_at : FeeSchedulerParams → ℕ → Bool
is_expired_at p current_point = is_past current_point (expiry_point p)

-- `u16::try_from(elapsed).unwrap_or(u16::MAX).min(number_of_period)`.
abbrev pub saturate : ℕ → ℕ → ℕ
saturate elapsed number_of_period =
    min (if leb elapsed u16_max then elapsed else u16_max) number_of_period

unfoldable pub elapsed_periods : FeeSchedulerParams → ℕ → ℕ
elapsed_periods p current_point =
    if p.period_frequency == 0
    then 0
    else if ltb current_point p.activation_point
    then p.number_of_period
    else saturate ((current_point - p.activation_point) / p.period_frequency) p.number_of_period

-- The rounds of `pow`'s loop: whether the exponent has the bit, one multiplication if so, and one
-- squaring unless the bit is the last. The loop leaves at the break; `fuel` counts its rounds.
abbrev pub multiplied : ℕ → ℕ → ℕ → ℕ → Option ℕ
multiplied exp bit squared_base result =
    if (exp / bit) % 2 == 1
    then and_then (checked_mul 128 result squared_base) (λ r. some (r / one_q64))
    else some result

unfoldable pub pow_loop : ℕ → ℕ → ℕ → ℕ → ℕ → Option ℕ
pow_loop zero exp bit squared_base result = none
pow_loop (suc fuel) exp bit squared_base result =
    and_then (multiplied exp bit squared_base result) (λ r.
      if leb max_exponential (bit * 2)
      then some r
      else and_then (checked_mul 128 squared_base squared_base)
          (λ s. pow_loop fuel exp (bit * 2) (s / one_q64) r))

-- As many rounds as there are bits below `max_exponential`.
abbrev pub pow_rounds : ℕ
pow_rounds = 19

-- What follows the loop.
abbrev pub pow_end : Bool → ℕ → Option ℕ
pow_end invert result =
    if result == 0 then none else if invert then checked_div u128_max result else some result

abbrev pub pow_from : Bool → ℕ → ℕ → Option ℕ
pow_from invert squared_base exp =
    and_then (pow_loop pow_rounds exp 1 squared_base one_q64) (pow_end invert)

-- The exponent is an `i32`, given by its sign and its magnitude.
unfoldable pub pow : ℕ → Bool → ℕ → Option ℕ
pow base is_negative exp =
    if is_negative && (exp == 2 ^ 31)
    then none
    else if exp == 0
    then some one_q64
    else if leb max_exponential exp
    then none
    else if leb one_q64 base
    then and_then (checked_div u128_max base) (λ s. pow_from (not is_negative) s exp)
    else pow_from is_negative base exp

abbrev pub to_u64 : ℕ → Option ℕ
to_u64 n = if ltb n (2 ^ 64) then some n else none

unfoldable pub fee_in_period : ℕ → ℕ → ℕ → Option ℕ
fee_in_period cliff_fee_numerator reduction_factor passed_period =
    if reduction_factor == 0
    then some cliff_fee_numerator
    else and_then (checked_shl 128 reduction_factor 64) (λ shifted.
      and_then (checked_div shifted 10_000) (λ bps. and_then (checked_sub one_q64 bps) (λ base.
        and_then (pow base false passed_period) (λ result.
          and_then (checked_mul 128 result cliff_fee_numerator)
            (λ scaled. to_u64 (scaled / one_q64))))))

abbrev pub linear_fee : ℕ → ℕ → ℕ → Option ℕ
linear_fee cliff_fee_numerator reduction_factor period =
    and_then (checked_mul 64 period reduction_factor) (checked_sub cliff_fee_numerator)

-- The `match` on the kind.
unfoldable pub fee_of_kind : BaseFeeKind → FeeSchedulerParams → ℕ → Option ℕ
fee_of_kind scheduler_linear p period = linear_fee p.cliff_fee_numerator p.reduction_factor period
fee_of_kind scheduler_exponential p period =
    fee_in_period p.cliff_fee_numerator p.reduction_factor period
fee_of_kind constant p period = none
fee_of_kind rate_limiter p period = none
fee_of_kind market_cap_scheduler_linear p period = none
fee_of_kind market_cap_scheduler_exponential p period = none

unfoldable pub base_fee_numerator_at : FeeSchedulerParams → ℕ → Option ℕ
base_fee_numerator_at p current_point =
    if p.period_frequency == 0
    then some p.cliff_fee_numerator
    else fee_of_kind p.kind p (elapsed_periods p current_point)
