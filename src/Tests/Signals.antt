-- ===== src/Tests/Signals.antt =====
-- A detector's tick of crates/signals/src/application/workers/signal_engine.rs on small inputs.
use yog_sothoth.Prelude.{ℕ, ◌≡◌, refl, true, Option, some, List, [], ◌∷◌, arith}
use yog_sothoth.Signals.Engine.{
  Severity, info, warning, critical, Signal, emittable, run_tick, rank,
}
use yog_sothoth.Signals.Escalation

abbrev signal : ℕ → Severity → ℕ → Signal ℕ
signal pool severity at = record {
  pool_address = pool;
  severity = severity;
  triggered_at = at;
  rest = 0;
}

abbrev stored : List (Signal ℕ)
stored = signal 1 warning 95 ∷ signal 1 info 90 ∷ []

-- Pool 1 escalates, pool 2 is new.
abbrev candidates : List (Signal ℕ)
candidates = signal 1 critical 100 ∷ signal 2 info 100 ∷ []

abbrev lookup : ℕ → Option (ℕ → Option Severity)
lookup since = some (λ pool. Escalation.latest pool since stored)

run_tick_emits :
    (run_tick 100 30 (some candidates) lookup true stored).0
    ≡ signal 1 critical 100 ∷ signal 2 info 100 ∷ stored
unfolding run_tick emittable rank
run_tick_emits = refl

run_tick-Escalates_example :
    let r = run_tick 100 30 (some candidates) lookup true stored in
    Escalation.Escalates 30 r.0 × Escalation.NoneAfter 100 r.0
unfolding rank
run_tick-Escalates_example =
    Escalation.run_tick-Escalates 30 100 (some candidates) lookup true stored (omega arith)
      (((λ p w. omega arith), tt), (tt, tt)) (omega arith, (omega arith, tt))
      (refl, ((λ e. ground arith), tt), (refl, tt, tt)) (λ pool. refl)
