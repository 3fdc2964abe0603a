-- ===== src/Signals/Detectors/Deviation.antt =====
-- crates/signals/src/application/detectors/price_oracle_deviation.rs, the detector of pools whose price
-- drifts from the oracle's. The decoder of a square root of a price, which computes in decimals, is a
-- parameter.
use Prim.Native.String.{String, ◌++◌ as concat}
use yog_sothoth.Prelude.{ℕ, ◌-◌, Option, none, some, List, ltb, ◌||◌, if◌then◌else◌}
use yog_sothoth.Domain.Protocols.{Protocol, meteora_damm_v2, meteora_dlmm, Result}
use yog_sothoth.Domain.Time.{Instant}
use yog_sothoth.Signals.Detectors.{
  Decimals, Look, Report, skip, stale, undecodable, no_decoder, or_panic, or_skip, emit, on_read,
}

module _ (n : Decimals) where
  open n use {
    Decimal, zero, checked_sub, checked_div, abs, lt, round_dp, round_sf, normalize, print,
  }

  pub record PriceOracleDeviationSettings : Type 0 where
    pub interval : ℕ
    pub cooldown : ℕ
    pub max_price_age : ℕ
    pub max_spot_age : ℕ
    pub min_tvl_usd : Decimal
    pub threshold : Decimal
    pub critical : Decimal

  pub record PoolPriceSnapshot : Type 0 where
    pub pool_address : ℕ
    pub protocol : Protocol
    pub sqrt_price : ℕ
    pub last_swap_at : Instant
    pub decimals_a : ℕ
    pub decimals_b : ℕ
    pub price_a_usd : Decimal
    pub price_a_fetched_at : Instant
    pub price_b_usd : Decimal
    pub price_b_fetched_at : Instant

  pub data SpotPrice : Type 0 where
    decoded : Decimal → SpotPrice
    not_decoded : SpotPrice
    without_decoder : SpotPrice

  abbrev pub or_not_decoded : Option Decimal → SpotPrice
  or_not_decoded none = not_decoded
  or_not_decoded (some d) = decoded d

  abbrev or_price : Decimal → Option Decimal → Decimal
  or_price price none = price
  or_price price (some rounded) = rounded

  compact : Decimal → Decimal
  compact price = normalize (or_price price (round_sf 6 price))

  deviation_message : Decimal → Decimal → Decimal → String
  unfolding compact
  deviation_message deviation spot oracle = concat "spot price deviates " (
      concat (print (round_dp 4 deviation)) (
        concat " from oracle (spot " (
          concat (print (compact spot))
            (concat ", oracle " (concat (print (compact oracle)) ")")))))

  module _ (sqrt_price_to_price_a_in_b : ℕ → ℕ → ℕ → Option Decimal)
      (settings : PriceOracleDeviationSettings) (now : Instant) where
    abbrev pub spot_for : Protocol → PoolPriceSnapshot → SpotPrice
    spot_for meteora_damm_v2 s =
        or_not_decoded (sqrt_price_to_price_a_in_b s.sqrt_price s.decimals_a s.decimals_b)
    spot_for meteora_dlmm s = without_decoder

    unfoldable pub spot_price_a_in_b : PoolPriceSnapshot → SpotPrice
    spot_price_a_in_b s = spot_for s.protocol s

    -- From the spot price on.
    unfoldable pub judge_spot : PoolPriceSnapshot → Decimal → SpotPrice → Look n
    unfolding deviation_message emit
    judge_spot s oracle not_decoded = skip undecodable
    judge_spot s oracle without_decoder = skip no_decoder
    judge_spot s oracle (decoded spot) = or_panic n (checked_sub spot oracle) (λ difference.
        or_skip n undecodable (checked_div difference oracle) (λ deviation.
          emit n "price_oracle_deviation" s.protocol s.pool_address now settings.threshold
            settings.critical (abs deviation) deviation (deviation_message deviation spot oracle)))

    -- From the oracle's price on.
    unfoldable pub judge_oracle : PoolPriceSnapshot → Decimal → Look n
    unfolding judge_spot spot_price_a_in_b
    judge_oracle s oracle =
        if lt zero oracle then judge_spot s oracle (spot_price_a_in_b s) else skip undecodable

    unfoldable pub look_deviation : PoolPriceSnapshot → Look n
    unfolding judge_oracle
    look_deviation s =
        if ltb s.last_swap_at (now - settings.max_spot_age)
          || ltb s.price_a_fetched_at (now - settings.max_price_age)
          || ltb s.price_b_fetched_at (now - settings.max_price_age)
        then skip stale
        else or_skip n undecodable (checked_div s.price_a_usd s.price_b_usd) (judge_oracle s)

    -- `read` is the repository's `latest`.
    unfoldable pub evaluate_deviation :
        {E : Type 0} → (Decimal → Result E (List PoolPriceSnapshot)) → Option (Result E (Report n))
    unfolding on_read look_deviation
    evaluate_deviation read = on_read n (read settings.min_tvl_usd) look_deviation
