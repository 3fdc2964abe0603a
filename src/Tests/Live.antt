-- ===== src/Tests/Live.antt =====
-- The live pollers at concrete inputs.
use yog_sothoth.Prelude.{ℕ, ◌≡◌, refl, false, none, some, List, [], ◌∷◌, arith}
use yog_sothoth.Domain.Protocols.{ok}
use yog_sothoth.Api.Live.Watermark.{LiveWatermark, anchored, fresh, settle}
use yog_sothoth.Api.Live.Settling.{walk, settle-eq-walk}
use yog_sothoth.Api.Live.Poller.{Tick, poll_once, run}
use yog_sothoth.Api.Live.Refinement.{Refines, run-Refines}
use yog_sothoth.Api.Live.Hole.{polls, polls_stay}
use yog_sothoth.Prelude.Map.{insert, get}

abbrev own_id : ℕ → ℕ
own_id id = id

abbrev all_items : List ℕ → List ℕ
all_items ids = ids

-- Ids 1 and 3 first, then 2 and 3.
abbrev first_tick : Tick ℕ
first_tick = record {
  stopped = false;
  receiver_count = 1;
  cut = false;
  source = record { tip = ok none; after = λ floor limit. ok (1 ∷ 3 ∷ []) };
  now = 5;
}

abbrev second_tick : Tick ℕ
second_tick = record {
  stopped = false;
  receiver_count = 1;
  cut = false;
  source = record { tip = ok none; after = λ floor limit. ok (2 ∷ 3 ∷ []) };
  now = 6;
}

abbrev two_ticks : List (Tick ℕ)
two_ticks = first_tick ∷ second_tick ∷ []

-- A hole that is filled later is delivered once.
filled : run own_id all_items two_ticks none ≡ 1 ∷ 3 ∷ 2 ∷ []
unfolding run poll_once fresh settle insert get anchored
filled = refl

run-Refines_example : Refines own_id all_items two_ticks none (run own_id all_items two_ticks none)
run-Refines_example = run-Refines own_id all_items two_ticks none tt

abbrev behind_a_hole : LiveWatermark
behind_a_hole = record { floor = 1; delivered = (3, 7) ∷ (4, 7) ∷ [] }

settle-eq-walk_example :
    settle 10000000007 behind_a_hole ≡ some (walk 10000000007 1 ((3, 7) ∷ (4, 7) ∷ []))
settle-eq-walk_example = settle-eq-walk 10000000007 behind_a_hole (omega arith)

passed : settle 10000000007 behind_a_hole ≡ some (record { floor = 4; delivered = [] })
unfolding settle
passed = refl

-- Three reads over half an hour.
abbrev rereads : List (ℕ × List ℕ)
rereads =
    (600000000000, 3 ∷ 4 ∷ []) ∷ (1200000000000, 3 ∷ 4 ∷ 5 ∷ []) ∷ (1800000000000, 3 ∷ []) ∷ []

polls_stay_example :
    (w : LiveWatermark) × (polls own_id rereads behind_a_hole ≡ some w) × (w.floor ≡ 1)
polls_stay_example =
    polls_stay own_id rereads behind_a_hole 3 7 (omega arith) (omega arith) refl
      ((refl, (refl, (refl, tt))), ((refl, (refl, (refl, (refl, tt)))), ((refl, (refl, tt)), tt)))
