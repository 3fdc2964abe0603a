-- ===== src/Signals/Detectors/Imbalance.antt =====
-- crates/signals/src/application/detectors/flow_imbalance.rs, the detector of lopsided swap flow.
use Prim.Native.String.{String, ◌++◌ as concat}
use yog_sothoth.Prelude.{ℕ, ◌-◌, Bool, not, ◌||◌, Option, List, if◌then◌else◌}
use yog_sothoth.Domain.Protocols.{Protocol, Result}
use yog_sothoth.Domain.Time.{Instant}
use yog_sothoth.Signals.Detectors.{
  Decimals, Look, Report, quiet, unpriced, or_panic, both_or_skip, emit, on_read,
}

module _ (n : Decimals) where
  open n use {Decimal, zero, checked_add, checked_sub, checked_div, abs, lt, round_dp, print}

  pub record FlowImbalanceSettings : Type 0 where
    pub window : ℕ
    pub interval : ℕ
    pub cooldown : ℕ
    pub min_volume_usd : Decimal
    pub threshold : Decimal
    pub critical : Decimal

  pub record PoolSwapFlow : Type 0 where
    pub pool_address : ℕ
    pub volume_a_to_b_usd : Option Decimal
    pub volume_b_to_a_usd : Option Decimal

  -- Neither below zero nor above.
  abbrev is_zero : Decimal → Bool
  is_zero d = not (lt d zero || lt zero d)

  imbalance_message : Decimal → Decimal → String
  imbalance_message imbalance total = concat "directional flow imbalance " (
      concat (print (round_dp 4 imbalance))
        (concat " (total volume $" (concat (print (round_dp 2 total)) ")")))

  module _ (protocol : Protocol) (settings : FlowImbalanceSettings) (now : Instant) where
    -- From the total on.
    unfoldable pub judge_total : ℕ → Decimal → Decimal → Decimal → Look n
    unfolding imbalance_message emit
    judge_total pool a_to_b b_to_a total =
        if is_zero total
        then quiet
        else or_panic n (checked_sub a_to_b b_to_a) (λ difference.
          or_panic n (checked_div difference total) (λ imbalance.
            emit n "flow_imbalance" protocol pool now settings.threshold settings.critical
              (abs imbalance) imbalance (imbalance_message imbalance total)))

    unfoldable pub look_imbalance : PoolSwapFlow → Look n
    unfolding judge_total
    look_imbalance flow =
        both_or_skip n unpriced flow.volume_a_to_b_usd flow.volume_b_to_a_usd (λ a_to_b b_to_a.
          or_panic n (checked_add a_to_b b_to_a) (judge_total flow.pool_address a_to_b b_to_a))

    -- `read` is the repository's `directional_volume_since`.
    unfoldable pub evaluate_imbalance :
        {E : Type 0}
        → (Instant → Decimal → Result E (List PoolSwapFlow))
        → Option (Result E (Report n))
    unfolding on_read look_imbalance
    evaluate_imbalance read =
        on_read n (read (now - settings.window) settings.min_volume_usd) look_imbalance
