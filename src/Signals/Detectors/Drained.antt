-- ===== src/Signals/Detectors/Drained.antt =====
-- The reasons of a signal of crates/signals/src/application/detectors/tvl_drain.rs.
use yog_sothoth.Prelude.{
  ℕ, ◌-◌, ◌≡◌, refl, sym, subst, Bool-cases, true, false, inl, inr, Option, none, some, List,
  length, All, All-weaken,
}
use yog_sothoth.Domain.Protocols.{Protocol, Result, ok}
use yog_sothoth.Domain.Time.{Instant}
use yog_sothoth.Signals.Engine.{Signal}
use yog_sothoth.Signals.Detectors.{
  Decimals, Report, Evidence, no_tvl, unpriced, or_panic, or_skip, both_or_skip, on_read,
}
use yog_sothoth.Signals.Detectors.Told.{
  Documented, IsGraded, Told, Reports, emit-Told, look_all-Reports,
}
use yog_sothoth.Signals.Detectors.Drain.{
  PoolLiquidityFlow, TvlDrainSettings, judge_starting, judge_net, look_drain, evaluate_drain,
}

module _ (n : Decimals) where
  open n use {Decimal, zero, checked_add, checked_sub, checked_div, lt}

  -- The amounts of a pool are not below zero, and its TVL at the start of the window is in range.
  abbrev pub InRange : Option Decimal → Option Decimal → Option Decimal → Type 0
  InRange (some tvl) (some added) (some removed) =
      (lt tvl zero ≡ false)
      × (lt added zero ≡ false)
      × (lt removed zero ≡ false)
      × ((net : Decimal)
          → checked_sub removed added ≡ some net
          → (starting : Decimal) × (checked_add tvl net ≡ some starting))
  InRange _ _ _ = Unit

  -- The pool lost the share `drain` of the TVL it started with, and that TVL reaches the floor.
  abbrev pub IsDrained :
      Decimal → Option Decimal → Option Decimal → Option Decimal → Decimal → Type 0
  IsDrained floor (some tvl) (some added) (some removed) drain =
      (net : Decimal) × (starting : Decimal) × (checked_sub removed added ≡ some net)
      × (lt zero net ≡ true)
      × (checked_add tvl net ≡ some starting)
      × (lt starting floor ≡ false)
      × (checked_div net starting ≡ some drain)
  IsDrained floor _ _ _ drain = ⊥

  module _ (documented : Documented n) (protocol : Protocol) (settings : TvlDrainSettings n)
      (now : Instant) where
    -- The reasons of a signal, in the pool that it is about.
    abbrev pub Explains : PoolLiquidityFlow n → Signal (Evidence n) → Type 0
    Explains f s =
        (s.pool_address ≡ f.pool_address)
        × IsDrained settings.min_tvl_usd f.tvl_usd f.added_usd f.removed_usd s.rest.value
        × IsGraded n settings.threshold settings.critical now s.rest.value s

    abbrev Reason : ℕ → Decimal → Decimal → Decimal → Signal (Evidence n) → Type 0
    Reason pool tvl added removed s =
        (s.pool_address ≡ pool)
        × IsDrained settings.min_tvl_usd (some tvl) (some added) (some removed) s.rest.value
        × IsGraded n settings.threshold settings.critical now s.rest.value s

    judge_starting-Told :
        (pool : ℕ) (tvl added removed net starting : Decimal)
        → checked_sub removed added ≡ some net
        → lt zero net ≡ true
        → checked_add tvl net ≡ some starting
        → lt tvl zero ≡ false
        → Told n
            (Reason pool tvl added removed)
            (judge_starting n protocol settings now pool tvl net starting)
    unfolding judge_starting
    judge_starting-Told pool tvl added removed net starting is_net positive is_starting held =
        elim (Bool-cases (lt starting settings.min_tvl_usd)) [
          | inl small ↦ rw small tt
          | inr large ↦
              let (drain, divides) =
                documented.div_total net starting positive
                  (documented.add_grows tvl net starting held positive is_starting) in
              rw (large, divides)
                (emit-Told n (Reason pool tvl added removed) _ _ _ _ _ _ _ _ _
                  (λ s at_pool is_value graded. (
                    at_pool,
                    (
                      net,
                      starting,
                      is_net,
                      positive,
                      is_starting,
                      large,
                      subst (λ v. checked_div net starting ≡ some v) (sym is_value) divides,
                    ),
                    subst (λ v. IsGraded n settings.threshold settings.critical now v s)
                        (sym is_value) graded,
                  )))
        ]

    judge_net-Told :
        (pool : ℕ) (tvl added removed net : Decimal)
        → checked_sub removed added ≡ some net
        → lt tvl zero ≡ false
        → (starting : Decimal) × (checked_add tvl net ≡ some starting)
        → Told n (Reason pool tvl added removed) (judge_net n protocol settings now pool tvl net)
    unfolding judge_net
    judge_net-Told pool tvl added removed net is_net held (starting, e) =
        elim (Bool-cases (lt zero net)) [
          | inl positive ↦
              rw (positive, e)
                (judge_starting-Told pool tvl added removed net starting is_net positive e held)
          | inr inflow ↦ rw inflow tt
        ]

    valued-Told :
        (pool : ℕ) (tvl added removed : Decimal)
        → InRange (some tvl) (some added) (some removed)
        → Told n
            (Reason pool tvl added removed)
            (or_panic n (checked_sub removed added) (judge_net n protocol settings now pool tvl))
    valued-Told pool tvl added removed (held, in_added, in_removed, in_total) =
        let (net, e) = documented.sub_total removed added in_removed in_added in
        rw e (judge_net-Told pool tvl added removed net e held (in_total net e))

    options-Told :
        (pool : ℕ) (tvl added removed : Option Decimal)
        → InRange tvl added removed
        → Told n
            (λ s.
              (s.pool_address ≡ pool)
              × IsDrained settings.min_tvl_usd tvl added removed s.rest.value
              × IsGraded n settings.threshold settings.critical now s.rest.value s)
            (or_skip n no_tvl tvl (λ t.
              both_or_skip n unpriced added removed
                (λ a r. or_panic n (checked_sub r a) (judge_net n protocol settings now pool t))))
    options-Told pool none added removed h = tt
    options-Told pool (some tvl) none removed h = tt
    options-Told pool (some tvl) (some added) none h = tt
    options-Told pool (some tvl) (some added) (some removed) h =
        valued-Told pool tvl added removed h

    -- Where the read answers pools whose known amounts are not below zero and whose starting TVL
    -- is in the decimals' range, the drain detector does not panic: it reports how many pools
    -- there were, skips and signals together at most that many, and each signal names a pool of
    -- them whose net removal is above zero, whose starting TVL reaches the floor, and whose
    -- removed share of it is the value and reaches the recorded threshold, the critical one
    -- exactly for a critical signal.
    pub evaluate_drain-Reports :
        {E : Type 0} (read : Instant → Result E (List (PoolLiquidityFlow n)))
        (flows : List (PoolLiquidityFlow n))
        → read (now - settings.window) ≡ ok flows
        → All (λ f. InRange f.tvl_usd f.added_usd f.removed_usd) flows
        → (r : Report n) × (evaluate_drain n protocol settings now read ≡ some (ok r))
          × Reports n Explains flows (length flows) r
    unfolding evaluate_drain look_drain on_read
    evaluate_drain-Reports read flows is_read in_range =
        let told =
          All-weaken _ (λ f. Told n (Explains f) (look_drain n protocol settings now f))
            (λ f h. options-Told f.pool_address f.tvl_usd f.added_usd f.removed_usd h) flows
            in_range in
        let (r, e, h) =
          look_all-Reports n Explains (look_drain n protocol settings now) (length flows) flows
            told in
        (r, rw (is_read, e) refl, h)
