-- ===== src/Signals/Detectors/Drain.antt =====
-- crates/signals/src/application/detectors/tvl_drain.rs, the detector of pools being emptied.
use Prim.Native.String.{String, ◌++◌ as concat}
use yog_sothoth.Prelude.{ℕ, ◌-◌, Option, List, if◌then◌else◌}
use yog_sothoth.Domain.Protocols.{Protocol, Result}
use yog_sothoth.Domain.Time.{Instant}
use yog_sothoth.Signals.Detectors.{
  Decimals, Look, Report, quiet, no_tvl, unpriced, or_panic, or_skip, both_or_skip, emit, on_read,
}

module _ (n : Decimals) where
  open n use {Decimal, zero, checked_add, checked_sub, checked_div, lt, round_dp, print}

  pub record TvlDrainSettings : Type 0 where
    pub window : ℕ
    pub interval : ℕ
    pub cooldown : ℕ
    pub min_tvl_usd : Decimal
    pub threshold : Decimal
    pub critical : Decimal

  pub record PoolLiquidityFlow : Type 0 where
    pub pool_address : ℕ
    pub added_usd : Option Decimal
    pub removed_usd : Option Decimal
    pub tvl_usd : Option Decimal

  drain_message : Decimal → Decimal → Decimal → String
  drain_message drain net_removed tvl = concat "liquidity drain " (
      concat (print (round_dp 4 drain)) (
        concat " (net $" (
          concat (print (round_dp 2 net_removed))
            (concat " removed, TVL now $" (concat (print (round_dp 2 tvl)) ")")))))

  module _ (protocol : Protocol) (settings : TvlDrainSettings) (now : Instant) where
    -- From the starting TVL on.
    unfoldable pub judge_starting : ℕ → Decimal → Decimal → Decimal → Look n
    unfolding drain_message emit
    judge_starting pool tvl net_removed starting_tvl =
        if lt starting_tvl settings.min_tvl_usd
        then quiet
        else or_panic n (checked_div net_removed starting_tvl) (λ drain.
          emit n "tvl_drain" protocol pool now settings.threshold settings.critical drain drain
            (drain_message drain net_removed tvl))

    -- From what is removed on balance on.
    unfoldable pub judge_net : ℕ → Decimal → Decimal → Look n
    unfolding judge_starting
    judge_net pool tvl net_removed =
        if lt zero net_removed
        then or_panic n (checked_add tvl net_removed) (judge_starting pool tvl net_removed)
        else quiet

    unfoldable pub look_drain : PoolLiquidityFlow → Look n
    unfolding judge_net
    look_drain flow = or_skip n no_tvl flow.tvl_usd (λ tvl.
        both_or_skip n unpriced flow.added_usd flow.removed_usd (λ added removed.
          or_panic n (checked_sub removed added) (judge_net flow.pool_address tvl)))

    -- `read` is the repository's `liquidity_flow_since`.
    unfoldable pub evaluate_drain :
        {E : Type 0} → (Instant → Result E (List PoolLiquidityFlow)) → Option (Result E (Report n))
    unfolding on_read look_drain
    evaluate_drain read = on_read n (read (now - settings.window)) look_drain
