-- ===== src/Tests/Amm.antt =====
-- The arithmetic of crates/core/src/amm on small inputs.
use yog_sothoth.Prelude.{◌+◌, ◌*◌, ◌/◌, ◌^◌, ◌-◌, ◌≤◌, ◌≡◌, refl, arith}
use yog_sothoth.Prelude.Machine.{checked_add, checked_mul, checked_sub, checked_shl, checked_div}
use yog_sothoth.Amm.Common.{panics, spot_price, price_impact, imbalance}
use yog_sothoth.Amm.Impact
use yog_sothoth.Amm.Fees.{
  FeeSchedulerParams, scheduler_linear, elapsed_periods, is_expired_at, expiry_point,
  base_fee_numerator_at, fee_of_kind, fee_in_period, pow, pow_loop, one_q64,
}
use yog_sothoth.Amm.Schedule
use yog_sothoth.Amm.Decay

program : Unit {0}
unfolding imbalance spot_price price_impact checked_add checked_mul checked_sub checked_shl
    checked_div elapsed_periods is_expired_at expiry_point base_fee_numerator_at fee_of_kind
    fee_in_period pow pow_loop
program = tt

imbalance_share_example : (5_000 ≡ ((30 - 10) + (10 - 30)) * 10_000 / (30 + 10)) × (5_000 ≤ 10_000)
unfolding program
imbalance_share_example = Impact.imbalance_share 30 10 5_000 refl

spot_price_wraps_example : spot_price 2 (6 + 1 * 2 ^ 64) ≡ spot_price 2 6
spot_price_wraps_example = Impact.spot_price_wraps 2 6 1

price_impact_panics_example : price_impact 5 0 3 ≡ panics
unfolding program
price_impact_panics_example =
    Impact.price_impact_panics 5 0 3 refl (omega arith) (omega arith) (omega arith)

-- A fee that falls from 50 by 4 each 10 seconds, five times, from second 100 on.
abbrev linear : FeeSchedulerParams
linear = record {
  cliff_fee_numerator = 50;
  number_of_period = 5;
  period_frequency = 10;
  reduction_factor = 4;
  activation_point = 100;
  activation_type = 1;
  kind = scheduler_linear;
}

elapsed_periods_rises_example : elapsed_periods linear 115 ≤ elapsed_periods linear 131
elapsed_periods_rises_example =
    Schedule.elapsed_periods_rises linear 115 131 (omega arith) (omega arith)

linear_fee_falls_example : (38 ≤ 46) × (46 ≤ 50)
unfolding program
linear_fee_falls_example =
    Schedule.linear_fee_falls linear 115 131 46 38 refl (omega arith) (omega arith) refl refl

fee_in_period_below_example : 562 * one_q64 ^ 2 ≤ Decay.period_factor 2_500 ^ 2 * 1_000
unfolding program
fee_in_period_below_example =
    Decay.fee_in_period_below 1_000 2_500 2 562 (omega arith) (omega arith) refl
