-- ===== src/Tests/Shutdown.antt =====
-- The shutdown of crates/signals/src/application/workers/signal_engine.rs on small inputs.
use Prim.Native.String.{String}
use yog_sothoth.Prelude.{◌≡◌, refl, none, List, [], ◌∷◌}
use yog_sothoth.Prelude.Map.{remove}
use yog_sothoth.Domain.Protocols.{ok, err}
use yog_sothoth.Signals.Shutdown.{finished, panicked, cancelled, shut_down, run, names}
use yog_sothoth.Signals.Shutdown.Answer.{Answers, run-answer}

abbrev detectors : List String
detectors = "tvl_drain" ∷ "flow_imbalance" ∷ "price_oracle_deviation" ∷ []

-- The two that never stop are named in order.
overrun_named :
    run detectors [] shut_down (cancelled 1 ∷ []) ≡ ok ("price_oracle_deviation" ∷ "tvl_drain" ∷ [])
unfolding run names remove
overrun_named = refl

panic_answered : run detectors (panicked 0 "a" ∷ []) shut_down (panicked 2 "b" ∷ []) ≡ err "a"
unfolding run
panic_answered = refl

run-answer_example :
    Answers none
      ("flow_imbalance" ∷ "price_oracle_deviation" ∷ [])
      (run detectors (finished 0 ∷ []) shut_down [])
run-answer_example = run-answer detectors (finished 0 ∷ []) []
