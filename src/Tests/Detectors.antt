-- ===== src/Tests/Detectors.antt =====
-- The detectors of crates/signals/src/application/detectors on small inputs.
use yog_sothoth.Prelude.{
  ℕ, ◌+◌, ◌-◌, ◌*◌, ◌/◌, ◌≡◌, refl, true, false, none, Option, some, List, [], ◌∷◌, arith, ltb,
  ◌==◌, if◌then◌else◌, length, le→ltb,
}
use yog_sothoth.Domain.Protocols.{Protocol, meteora_damm_v2, meteora_dlmm, ok}
use yog_sothoth.Signals.Detectors.{Decimals, Report, unpriced, no_tvl, stale, no_decoder}
use yog_sothoth.Signals.Detectors.Told.{Documented, Reports}
use yog_sothoth.Signals.Detectors.Drain.{PoolLiquidityFlow, TvlDrainSettings, evaluate_drain}
use yog_sothoth.Signals.Detectors.Drained.{Explains, evaluate_drain-Reports}
use yog_sothoth.Signals.Detectors.Deviation.{
  PoolPriceSnapshot, PriceOracleDeviationSettings, evaluate_deviation,
}
use yog_sothoth.Signals.Detectors.Fresh.{ComparesFresh, evaluate_deviation-Reports}
use yog_sothoth.Signals.Detectors.Imbalance.{
  PoolSwapFlow, FlowImbalanceSettings, evaluate_imbalance,
}

-- Amounts that are whole numbers, and ratios that are ten thousandths; none is below zero.
abbrev whole : Decimals
whole = record {
  Decimal = ℕ;
  zero = 0;
  checked_add = λ a b. some (a + b);
  checked_sub = λ a b. some (a - b);
  checked_div = λ a b. if b == 0 then none else some (a * 10000 / b);
  abs = λ a. a;
  lt = ltb;
  round_dp = λ k a. a;
  round_sf = λ k a. some a;
  normalize = λ a. a;
  print = λ a. "?";
}

div_whole : (a b : ℕ) → ltb 0 a ≡ true → ltb b a ≡ false → (b == 0) ≡ false
div_whole a b h k = ground arith

whole_documented : Documented whole
whole_documented = record {
  sub_total = λ a b h k. (a - b, refl);
  add_grows = λ a b s h k e. let same : a + b ≡ s = cc in ground (arith, same);
  lt_asym = λ a b h. ground arith;
  div_total = λ a b h k. (a * 10000 / b, rw (div_whole a b h k) refl);
}

abbrev drain_settings : TvlDrainSettings whole
drain_settings = record {
  window = 60;
  interval = 5;
  cooldown = 60;
  min_tvl_usd = 1000;
  threshold = 3000;
  critical = 6000;
}

abbrev flow : ℕ → ℕ → ℕ → ℕ → PoolLiquidityFlow whole
flow pool added removed tvl = record {
  pool_address = pool;
  added_usd = some added;
  removed_usd = some removed;
  tvl_usd = some tvl;
}

-- Pool 1 lost half, pool 2 four fifths, pool 3 is small, pool 4 gained; the last two have no value.
abbrev flows : List (PoolLiquidityFlow whole)
flows =
    flow 1 100 1100 1000
    ∷ flow 2 0 8000 2000
    ∷ flow 3 0 500 10
    ∷ flow 4 700 100 5000
    ∷ record { pool_address = 5; added_usd = some 1; removed_usd = some 2; tvl_usd = none }
    ∷ record { pool_address = 6; added_usd = none; removed_usd = none; tvl_usd = some 9 }
    ∷ []

evaluate_drain_reports :
    (r : Report whole) × (evaluate_drain whole meteora_damm_v2 drain_settings 100 {E = Unit}
        (λ since. ok flows)
      ≡ some (ok r))
    × (r.skipped ≡ no_tvl ∷ unpriced ∷ [])
    × (length r.signals ≡ 2)
unfolding evaluate_drain
evaluate_drain_reports = (_, refl, refl, refl)

evaluate_drain-Reports_example :
    (r : Report whole) × (evaluate_drain whole meteora_damm_v2 drain_settings 100 {E = Unit}
        (λ since. ok flows)
      ≡ some (ok r))
    × Reports whole (Explains whole whole_documented meteora_damm_v2 drain_settings 100) flows 6 r
evaluate_drain-Reports_example =
    evaluate_drain-Reports whole whole_documented meteora_damm_v2 drain_settings 100
      (λ since. ok flows) flows refl
      (
        (refl, refl, refl, (λ net e. (_, refl))),
        (
          (refl, refl, refl, (λ net e. (_, refl))),
          (
            (refl, refl, refl, (λ net e. (_, refl))),
            ((refl, refl, refl, (λ net e. (_, refl))), (tt, (tt, tt))),
          ),
        ),
      )

abbrev flow_settings : FlowImbalanceSettings whole
flow_settings = record {
  window = 60;
  interval = 5;
  cooldown = 60;
  min_volume_usd = 10;
  threshold = 5000;
  critical = 9000;
}

abbrev swaps : List (PoolSwapFlow whole)
swaps =
    record { pool_address = 1; volume_a_to_b_usd = some 90; volume_b_to_a_usd = some 10 }
    ∷ record { pool_address = 2; volume_a_to_b_usd = some 0; volume_b_to_a_usd = some 0 }
    ∷ record { pool_address = 3; volume_a_to_b_usd = some 5; volume_b_to_a_usd = none }
    ∷ []

evaluate_imbalance_reports :
    (r : Report whole) × (evaluate_imbalance whole meteora_damm_v2 flow_settings 100 {E = Unit}
        (λ since floor. ok swaps)
      ≡ some (ok r))
    × (r.skipped ≡ unpriced ∷ [])
    × (length r.signals ≡ 1)
unfolding evaluate_imbalance
evaluate_imbalance_reports = (_, refl, refl, refl)

abbrev deviation_settings : PriceOracleDeviationSettings whole
deviation_settings = record {
  interval = 5;
  cooldown = 60;
  max_price_age = 20;
  max_spot_age = 30;
  min_tvl_usd = 10;
  threshold = 500;
  critical = 5000;
}

abbrev snapshot : ℕ → Protocol → ℕ → ℕ → PoolPriceSnapshot whole
snapshot pool protocol price swap_at = record {
  pool_address = pool;
  protocol = protocol;
  sqrt_price = price;
  last_swap_at = swap_at;
  decimals_a = 6;
  decimals_b = 6;
  price_a_usd = 2;
  price_a_fetched_at = 90;
  price_b_usd = 1;
  price_b_fetched_at = 95;
}

-- Pool 1 is a tenth off, pool 2 agrees, pool 3 has no recent swap, pool 4 no decoder.
abbrev snapshots : List (PoolPriceSnapshot whole)
snapshots =
    snapshot 1 meteora_damm_v2 22000 99
    ∷ snapshot 2 meteora_damm_v2 20000 99
    ∷ snapshot 3 meteora_damm_v2 90000 60
    ∷ snapshot 4 meteora_dlmm 90000 99
    ∷ []

abbrev decoder : ℕ → ℕ → ℕ → Option ℕ
decoder x a b = some x

evaluate_deviation_reports :
    (r : Report whole) × (evaluate_deviation whole decoder deviation_settings 100 {E = Unit}
        (λ floor. ok snapshots)
      ≡ some (ok r))
    × (r.skipped ≡ stale ∷ no_decoder ∷ [])
    × (length r.signals ≡ 1)
unfolding evaluate_deviation
evaluate_deviation_reports = (_, refl, refl, refl)

evaluate_deviation-Reports_example :
    (r : Report whole) × (evaluate_deviation whole decoder deviation_settings 100 {E = Unit}
        (λ floor. ok snapshots)
      ≡ some (ok r))
    × Reports whole
        (ComparesFresh whole whole_documented decoder
          (λ x a b d e. le→ltb d 0 (omega arith))
          deviation_settings
          100)
        snapshots
        4
        r
evaluate_deviation-Reports_example =
    evaluate_deviation-Reports whole whole_documented decoder
      (λ x a b d e. le→ltb d 0 (omega arith)) deviation_settings 100 (λ floor. ok snapshots)
      snapshots refl
