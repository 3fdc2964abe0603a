-- ===== src/Signals/Engine.antt =====
-- crates/signals/src/application/workers/signal_engine.rs: one tick of a detector. What the detector
-- and the repository answer comes from outside; the signals stored are kept newest first.
use yog_sothoth.Prelude.{
  ℕ, ◌-◌, Bool, true, Option, none, some, List, [], ◌∷◌, ◌++◌, retain, ltb, if◌then◌else◌,
}

-- crates/core/src/domain/signals/model.rs. The derived order is that of the ranks.
pub data Severity : Type 0 where
  info warning critical : Severity

unfoldable pub rank : Severity → ℕ
rank info = 0
rank warning = 1
rank critical = 2

-- The fields that are read here; the rest is only passed on.
pub record Signal (Rest : Type 0) : Type 0 where
  pub pool_address : ℕ
  pub severity : Severity
  pub triggered_at : ℕ
  pub rest : Rest

-- The test of the filter, on what the window has of the pool.
abbrev pub escalates : Severity → Option Severity → Bool
escalates severity none = true
escalates severity (some last) = ltb (rank last) (rank severity)

module _ {Rest : Type 0} where
  unfoldable pub emittable : List (Signal Rest) → (ℕ → Option Severity) → List (Signal Rest)
  emittable candidates recent =
      retain (λ c. escalates c.severity (recent c.pool_address)) candidates

-- The label that a tick is counted under.
pub data TickOutcome : Type 0 where
  ok_tick suppressed eval_failed dedup_failed persist_failed : TickOutcome

module _ {Rest : Type 0} where
  -- The end of a tick, on what is emitted: the insert is taken or not.
  abbrev pub persist :
      Bool → List (Signal Rest) → List (Signal Rest) → List (Signal Rest) × TickOutcome
  persist is_stored [] store = (store, suppressed)
  persist is_stored (c ∷ cs) store =
      if is_stored then ((c ∷ cs) ++ store, ok_tick) else (store, persist_failed)

  -- After the evaluation, on what the lookup answers.
  abbrev pub dedup :
      Bool
      → Option (ℕ → Option Severity)
      → List (Signal Rest)
      → List (Signal Rest)
      → List (Signal Rest) × TickOutcome
  dedup is_stored recent [] store = (store, ok_tick)
  dedup is_stored none (c ∷ cs) store = (store, dedup_failed)
  dedup is_stored (some recent) (c ∷ cs) store = persist is_stored (emittable (c ∷ cs) recent) store

  -- `lookup` is asked for what was stored since an instant.
  unfoldable pub run_tick :
      ℕ
      → ℕ
      → Option (List (Signal Rest))
      → (ℕ → Option (ℕ → Option Severity))
      → Bool
      → List (Signal Rest)
      → List (Signal Rest) × TickOutcome
  run_tick now cooldown none lookup is_stored store = (store, eval_failed)
  run_tick now cooldown (some candidates) lookup is_stored store =
      dedup is_stored (lookup (now - cooldown)) candidates store
