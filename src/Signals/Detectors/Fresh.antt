-- ===== src/Signals/Detectors/Fresh.antt =====
-- The reasons of a signal of crates/signals/src/application/detectors/price_oracle_deviation.rs.
use yog_sothoth.Prelude.{
  ℕ, ◌-◌, ◌≤◌, ◌≡◌, refl, sym, subst, Bool-cases, true, false, inl, inr, Option, none, some, List,
  length, All-any, ltb, ltb_false→le, ◌||◌, Bool, Option-cases,
}
use yog_sothoth.Domain.Protocols.{Protocol, meteora_damm_v2, meteora_dlmm, Result, ok}
use yog_sothoth.Domain.Time.{Instant}
use yog_sothoth.Signals.Engine.{Signal}
use yog_sothoth.Signals.Detectors.{Decimals, Look, Report, Evidence, on_read}
use yog_sothoth.Signals.Detectors.Told.{
  Documented, IsGraded, Told, Reports, emit-Told, look_all-Reports,
}
use yog_sothoth.Signals.Detectors.Deviation.{
  PoolPriceSnapshot, PriceOracleDeviationSettings, SpotPrice, or_not_decoded, decoded, not_decoded,
  without_decoder, spot_for, spot_price_a_in_b, judge_spot, judge_oracle, look_deviation,
  evaluate_deviation,
}

none_is_true : (a b c : Bool) → (a || b || c) ≡ false → (a ≡ false) × (b ≡ false) × (c ≡ false)
none_is_true true b c h = cc
none_is_true false true c h = cc
none_is_true false false true h = cc
none_is_true false false false h = (refl, refl, refl)

module _ (n : Decimals) where
  open n use {Decimal, zero, checked_sub, checked_div, abs, lt}

  module _ (documented : Documented n) (decoder : ℕ → ℕ → ℕ → Option Decimal)
      (decodes_not_below : (x a b : ℕ) (d : Decimal) → decoder x a b ≡ some d → lt d zero ≡ false)
      (settings : PriceOracleDeviationSettings n) (now : Instant) where
    -- The prices that are compared are not too old.
    abbrev pub IsFresh : PoolPriceSnapshot n → Type 0
    IsFresh s =
        (now - settings.max_spot_age ≤ s.last_swap_at)
        × (now - settings.max_price_age ≤ s.price_a_fetched_at)
        × (now - settings.max_price_age ≤ s.price_b_fetched_at)

    -- What lies between the two prices, as a share of the oracle's.
    abbrev pub Deviates : PoolPriceSnapshot n → Decimal → Decimal → Type 0
    Deviates s oracle deviation =
        (spot : Decimal) × (difference : Decimal) × (spot_price_a_in_b n decoder settings now s
          ≡ decoded spot)
        × (checked_sub spot oracle ≡ some difference)
        × (checked_div difference oracle ≡ some deviation)

    abbrev pub Compares : PoolPriceSnapshot n → Signal (Evidence n) → Type 0
    Compares s signal =
        (signal.pool_address ≡ s.pool_address)
        × IsGraded n settings.threshold settings.critical now (abs signal.rest.value) signal
        × ((oracle : Decimal) × (checked_div s.price_a_usd s.price_b_usd ≡ some oracle)
            × (lt zero oracle ≡ true)
            × Deviates s oracle signal.rest.value)

    decoded_some : (o : Option Decimal) (d : Decimal) → or_not_decoded n o ≡ decoded d → o ≡ some d
    decoded_some none d e = cc
    decoded_some (some x) d e = cc

    spot-not_below :
        (s : PoolPriceSnapshot n) (spot : Decimal) (p : Protocol)
        → spot_for n decoder settings now p s ≡ decoded spot
        → lt spot zero ≡ false
    spot-not_below s spot meteora_damm_v2 e = decodes_not_below _ _ _ spot (decoded_some _ spot e)
    spot-not_below s spot meteora_dlmm e = cc

    judge_spot-Told :
        (s : PoolPriceSnapshot n) (oracle : Decimal)
        → checked_div s.price_a_usd s.price_b_usd ≡ some oracle
        → lt zero oracle ≡ true
        → (sp : SpotPrice n) → spot_price_a_in_b n decoder settings now s ≡ sp
        → Told n (Compares s) (judge_spot n decoder settings now s oracle sp)
    unfolding judge_spot spot_price_a_in_b
    judge_spot-Told s oracle divides positive not_decoded e = tt
    judge_spot-Told s oracle divides positive without_decoder e = tt
    judge_spot-Told s oracle divides positive (decoded spot) e =
        let (difference, is_difference) =
          documented.sub_total spot oracle (spot-not_below s spot s.protocol e)
            (documented.lt_asym zero oracle positive) in
        elim (Option-cases (checked_div difference oracle)) [
          | inl fails ↦ rw (is_difference, fails) tt
          | inr (deviation, is_deviation) ↦
              rw (is_difference, is_deviation)
                (emit-Told n (Compares s) _ _ _ _ _ _ _ _ _ (λ signal at_pool is_value graded. (
                  at_pool,
                  subst (λ v. IsGraded n settings.threshold settings.critical now (abs v) signal)
                      (sym is_value) graded,
                  (
                    oracle,
                    divides,
                    positive,
                    (
                      spot,
                      difference,
                      e,
                      is_difference,
                      subst (λ v. checked_div difference oracle ≡ some v) (sym is_value)
                          is_deviation,
                    ),
                  ),
                )))
        ]

    -- A signal has its prices fresh.
    abbrev pub ComparesFresh : PoolPriceSnapshot n → Signal (Evidence n) → Type 0
    ComparesFresh s signal = IsFresh s × Compares s signal

    judge_oracle-Told :
        (s : PoolPriceSnapshot n) (oracle : Decimal)
        → checked_div s.price_a_usd s.price_b_usd ≡ some oracle
        → Told n (Compares s) (judge_oracle n decoder settings now s oracle)
    unfolding judge_oracle
    judge_oracle-Told s oracle divides = elim (Bool-cases (lt zero oracle)) [
      | inl positive ↦ rw positive (judge_spot-Told s oracle divides positive _ refl)
      | inr not_positive ↦ rw not_positive tt
    ]

    Told-with :
        (P Q : Signal (Evidence n) → Type 0) (h : (s : Signal (Evidence n)) → P s → Q s)
        (l : Look n)
        → Told n P l
        → Told n Q l
    Told-with P Q h Look.quiet t = tt
    Told-with P Q h (Look.skip reason) t = tt
    Told-with P Q h (Look.raise s) t = h s t
    Told-with P Q h Look.panic t = t

    look_deviation-Told :
        (s : PoolPriceSnapshot n)
        → Told n (ComparesFresh s) (look_deviation n decoder settings now s)
    unfolding look_deviation
    look_deviation-Told s =
        elim (Bool-cases (
          ltb s.last_swap_at (now - settings.max_spot_age)
          || ltb s.price_a_fetched_at (now - settings.max_price_age)
          || ltb s.price_b_fetched_at (now - settings.max_price_age))) [
            | inl is_stale ↦ rw is_stale tt
            | inr is_fresh ↦
                let (swap, first, second) = none_is_true _ _ _ is_fresh in
                let fresh : IsFresh s =
                  (ltb_false→le _ _ swap, ltb_false→le _ _ first, ltb_false→le _ _ second) in
                rw is_fresh (elim (Option-cases (checked_div s.price_a_usd s.price_b_usd)) [
                  | inl fails ↦ rw fails tt
                  | inr (oracle, divides) ↦ rw divides (
                      Told-with (Compares s) (ComparesFresh s) (λ signal h. (fresh, h)) _
                        (judge_oracle-Told s oracle divides))
                ])
          ]

    -- Where the read answers, and no decoded price is below zero, the deviation detector does not
    -- panic, whatever the snapshots: it reports how many there were, skips and signals together
    -- at most that many, and each signal names a pool of them whose swap and both prices are not
    -- older than their limits, whose oracle price is above zero, and whose spot price deviates
    -- from it by the value, which reaches the recorded threshold, the critical one exactly for a
    -- critical signal.
    pub evaluate_deviation-Reports :
        {E : Type 0} (read : Decimal → Result E (List (PoolPriceSnapshot n)))
        (snapshots : List (PoolPriceSnapshot n))
        → read settings.min_tvl_usd ≡ ok snapshots
        → (r : Report n) × (evaluate_deviation n decoder settings now read ≡ some (ok r))
          × Reports n ComparesFresh snapshots (length snapshots) r
    unfolding evaluate_deviation on_read
    evaluate_deviation-Reports read snapshots is_read =
        let (r, e, h) =
          look_all-Reports n ComparesFresh (look_deviation n decoder settings now)
            (length snapshots) snapshots (All-any snapshots look_deviation-Told) in
        (r, rw (is_read, e) refl, h)
