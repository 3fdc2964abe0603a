-- ===== src/Tests/Buffer.antt =====
-- The slot and time buffer of crates/indexer/src/infra/grpc/slot_timestamp_buffer.rs on small inputs.
use yog_sothoth.Prelude.{ℕ, ◌≡◌, refl, some, List, [], ◌∷◌, arith, length, ◌+◌}
use yog_sothoth.Prelude.Map.{get, insert, remove, first, last}
use yog_sothoth.Grpc.Buffer.Banks.{id, admits, same_bank}
use yog_sothoth.Grpc.Buffer.Known.{
  KnownSlots, Facts, Instant, SlotOutcome, at, given_up, settlement, kept, time, resolve, keep,
  update, facts_time,
}
use yog_sothoth.Grpc.Buffer.Known
use yog_sothoth.Grpc.Buffer.Waiting.{WaitingSlots, BufferMetrics, enforce_bounds, waiting_for}
use yog_sothoth.Grpc.Buffer.Waiting
use yog_sothoth.Grpc.Buffer.Waiting.Invariant
use yog_sothoth.Grpc.Buffer.Waiting.Survivors
use yog_sothoth.Grpc.Buffer.{SlotTimestampBuffer, with_bounds, settle}
use yog_sothoth.Grpc.Buffer.Run.{Message, run, step}
use yog_sothoth.Grpc.Buffer.Sound
use yog_sothoth.Grpc.Buffer.Verdicts
use yog_sothoth.Grpc.Buffer.Window

abbrev no_metrics : BufferMetrics
no_metrics = record {
  evicted_slot_bound = 0;
  evicted_payload_bound = 0;
  evicted_unresolvable = 0;
  losing_bank = 0;
  pending_payloads_peak = 0;
  slot_lag_peak = 0;
}

-- A window of two slots, three payloads at most, three slots remembered.
abbrev small : SlotTimestampBuffer ℕ
small = with_bounds 2 3 3 no_metrics

small-IsReady : Sound.IsReady small
small-IsReady = Sound.with_bounds-IsReady 2 3 3 no_metrics

abbrev session : List (Message ℕ)
session =
    Message.payload 5 (id 1) 7
    ∷ Message.payload 5 (id 2) 8
    ∷ Message.block_time 5 (id 1) 100
    ∷ Message.finalized 5 (id 1)
    ∷ []

program : Unit {0}
unfolding run settle with_bounds Known.new Waiting.new settlement kept time resolve keep update get
    insert remove first last step Known.resolve_facts Known.keep_facts Known.give_up_facts
    Known.give_up facts_time admits same_bank Waiting.release waiting_for Waiting.see
    Waiting.drop_losing Waiting.observe enforce_bounds Waiting.evict_exceeding
    Waiting.exceeded_bound Waiting.victim Waiting.evict Waiting.give_up Waiting.push Waiting.add
program = tt

run_releases : (run small session).1 ≡ record { payload = 7; at_instant = 100 } ∷ []
unfolding program
run_releases = refl

-- Payload 8 waits for bank 2 of slot 5, payload 7 for bank 1, whose time is known.
abbrev held : SlotTimestampBuffer ℕ
held = record {
  waiting = record {
    pending = (5, record { bank = id 1; held = 7 } ∷ record { bank = id 2; held = 8 } ∷ []) ∷ [];
    count = 2;
    head_slot = some 5;
    max_pending_slots = 2;
    max_pending_payloads = 3;
    metrics = no_metrics;
  };
  known = record {
    facts = (5, record { times = (id 1, at 100) ∷ []; kept = some (id 1) }) ∷ [];
    max_known_slots = 3;
  };
}

held-IsReady : Sound.IsReady held
unfolding first Waiting.lag
held-IsReady = record {
  waiting = record {
    valid = record {
      sorted = omega arith;
      nonempty = omega arith;
      counted = refl;
      behind = omega arith;
    };
    within = record { window = omega arith; room = omega arith };
  };
  known = record { sorted = omega arith; bounded = omega arith };
}

run-Settles_example :
    Sound.IsReady (run small session).0
    × (Sound.accounted (run small session).0 + length (run small session).1 ≡ 2)
unfolding with_bounds Waiting.new
run-Settles_example = Sound.run-Settles small session small-IsReady

settle-due_example : (settle 5 held).1 ≡ record { payload = 7; at_instant = 100 } ∷ []
unfolding program
settle-due_example = Verdicts.settle-due 5 held held-IsReady

run-IsUnsettled_example : Verdicts.IsUnsettled (run small session).0
unfolding with_bounds Waiting.new
run-IsUnsettled_example = Verdicts.run-IsUnsettled small session small-IsReady tt

-- Slot 2 is out of the window, slot 5 brings the payloads over their bound.
abbrev crowded : WaitingSlots ℕ
crowded = record {
  pending = (2, 1 ∷ []) ∷ (4, 2 ∷ 3 ∷ []) ∷ (5, 4 ∷ 5 ∷ []) ∷ [];
  count = 5;
  head_slot = some 5;
  max_pending_slots = 2;
  max_pending_payloads = 3;
  metrics = no_metrics;
}

crowded-IsValid : Invariant.IsValid crowded
crowded-IsValid = record {
  sorted = omega arith;
  nonempty = omega arith;
  counted = refl;
  behind = omega arith;
}

pending-enforce_bounds_example : (enforce_bounds crowded).pending ≡ (4, 2 ∷ 3 ∷ []) ∷ []
unfolding Survivors.drop_stale Survivors.fitting Waiting.lag
pending-enforce_bounds_example = Survivors.pending-enforce_bounds crowded crowded-IsValid

step_remembers_example :
    Window.IsCovered (step small (Message.finalized 5 (id 1))).0
    × ((j : ℕ)
        → Window.InWindow (step small (Message.finalized 5 (id 1))).0 j
        → get j (step small (Message.finalized 5 (id 1))).0.known.facts
          ≡ Window.noted {T = ℕ} (Message.finalized 5 (id 1)) j (get j small.known.facts))
unfolding with_bounds Waiting.new Known.new
step_remembers_example =
    Window.step_remembers small (Message.finalized 5 (id 1)) small-IsReady
      (record { behind = tt; room = refl })

abbrev timed : Facts
timed = record { times = (id 1, at 100) ∷ []; kept = some (id 1) }
