-- ===== src/Tests/Session.antt =====
-- A session of crates/indexer/src/infra/grpc/session.rs on small inputs.
use yog_sothoth.Prelude.{
  ℕ, ◌-◌, ◌≤◌, ◌<◌, inr, refl, false, Option, none, some, List, [], ◌∷◌, arith,
}
use yog_sothoth.Prelude.Map.{get, first}
use yog_sothoth.Domain.Protocols.{meteora_damm_v2, Result, ok}
use yog_sothoth.Domain.Errors.{CoreError}
use yog_sothoth.Grpc.Buffer.Banks.{id}
use yog_sothoth.Grpc.Buffer.Known.{Instant}
use yog_sothoth.Grpc.Buffer.Waiting
use yog_sothoth.Grpc.Buffer.Waiting.{BufferMetrics}
use yog_sothoth.Grpc.Buffer.{with_bounds, oldest_pending_slot}
use yog_sothoth.Grpc.Buffer.Sound
use yog_sothoth.Grpc.Session.Progress.{SlotProgress, TransactionUpdate, finalized, settled_below}
use yog_sothoth.Grpc.Session.Progress.Settled
use yog_sothoth.Grpc.Session.Received.{ReceivedSlots, start_of, on_block_meta}
use yog_sothoth.Grpc.Session.Received
use yog_sothoth.Grpc.Session.Received.Counted
use yog_sothoth.Grpc.Session.Received.Widening
use yog_sothoth.Grpc.Session.Deliveries.{Answer, taken}
use yog_sothoth.Grpc.Session.{
  StreamSession, Update, UpdateOneof, transaction, block_meta, ping, SendOutcome, sent, handle,
  handle_all,
}
use yog_sothoth.Grpc.Session.Accounts
use yog_sothoth.Grpc.Session.Liveness

abbrev pub no_metrics : BufferMetrics
no_metrics = record {
  evicted_slot_bound = 0;
  evicted_payload_bound = 0;
  evicted_unresolvable = 0;
  losing_bank = 0;
  pending_payloads_peak = 0;
  slot_lag_peak = 0;
}

abbrev pub idle : StreamSession ℕ ℕ
idle = record {
  slots = record {
    buffer = with_bounds 2 3 3 no_metrics;
    highest_meta_slot = none;
    bank_ids = none;
    bank_id_missing = false;
  };
  received_slots = record {
    started_at = 1;
    protocols = meteora_damm_v2 ∷ [];
    span = none;
    counted_from = none;
    not_yet = [];
  };
  delivery = record {
    sent = [];
    offers = 0;
    metrics = record {
      dropped_missing_field = 0;
      dropped_parse_error = 0;
      dropped_other = 0;
      dropped_unroutable = 0;
      emitted = 0;
      downstream_full = 0;
    };
  };
  pings = record { answered = 0; outbound_full = 0; outbound_closed = 0 };
  received_data = false;
  block_metas = 0;
  ranges = [];
}

abbrev pub from_timestamp : ℕ → Option Instant
from_timestamp s = some s

abbrev pub from_grpc : TransactionUpdate ℕ → Instant → Result CoreError ℕ
from_grpc u at = ok u.message

abbrev pub consumer : ℕ → Answer
consumer n = taken

abbrev pub outbound : ℕ → SendOutcome
outbound n = sent

-- A transaction of slot 5, its block-meta, a ping, the slot's status, and a transaction that no
-- filter names.
abbrev updates : List (Update ℕ ℕ)
updates =
    record {
      filters = "meteora_damm_v2" ∷ [];
      update_oneof = transaction (record { slot = 5; bank_id = 1; message = 7 });
    }
    ∷ record {
      filters = [];
      update_oneof = block_meta (record { slot = 5; bank_id = 1; block_time = some 100 });
    }
    ∷ record { filters = []; update_oneof = ping }
    ∷ record {
      filters = [];
      update_oneof = UpdateOneof.slot (record { slot = 5; bank_id = some 1; status = finalized });
    }
    ∷ record {
      filters = "other" ∷ [];
      update_oneof = transaction (record { slot = 6; bank_id = 1; message = 8 });
    }
    ∷ []

handle_all-Booked_example :
    Accounts.Booked 2 idle (handle_all from_timestamp from_grpc consumer outbound updates idle)
handle_all-Booked_example =
    Accounts.handle_all-Booked from_timestamp from_grpc consumer outbound updates idle
      (Sound.with_bounds-IsReady 2 3 3 no_metrics)

abbrev a_ping : Update ℕ ℕ
a_ping = record { filters = []; update_oneof = ping }

handle-Marks_example :
    Liveness.Marks outbound a_ping.update_oneof idle
      (handle from_timestamp from_grpc consumer outbound a_ping idle).0
handle-Marks_example = Liveness.handle-Marks from_timestamp from_grpc consumer outbound a_ping idle

-- Slots 12 and 13 with their times; the first has set the start, and 13 settles slot 12.
abbrev metas : List Counted.Meta
metas = (10, 100, none) ∷ (12, 102, some 10) ∷ (13, 103, some 13) ∷ []

abbrev fresh : ReceivedSlots
fresh = Received.new 1 (meteora_damm_v2 ∷ [])

run-IsValid_example : Counted.IsValid 13 (Counted.run metas fresh []).0
run-IsValid_example =
    Counted.run-IsValid 0 metas fresh [] (Counted.new-IsValid 1 (meteora_damm_v2 ∷ []))

abbrev started : ReceivedSlots
started = record idle.received_slots { counted_from = some 12 }

on_block_meta_counts_example :
    Counted.Has (on_block_meta 12 102 (some 13) started []).0 12
    × (12 < 13 → Widening.Counted (on_block_meta 12 102 (some 13) started []).0.span 12)
unfolding start_of
on_block_meta_counts_example =
    Counted.on_block_meta_counts 12 12 0 102 13 started []
      (record { sorted = tt; past = tt; within = tt }) (ground arith) (inr (refl, omega arith))

-- Slot 5 waits, and nothing above slot 3 is settled.
abbrev waiting_five : SlotProgress ℕ
waiting_five = record idle.slots {
  buffer = record idle.slots.buffer {
    waiting = record {
      pending =
          (
            5,
            record {
              bank = id 1;
              held = record {
                protocol = meteora_damm_v2;
                update = record { slot = 5; bank_id = 1; message = 7 };
              };
            }
                ∷ [],
          )
          ∷ [];
      count = 1;
      head_slot = some 5;
      max_pending_slots = 2;
      max_pending_payloads = 3;
      metrics = no_metrics;
    };
    known = record { facts = []; max_known_slots = 3 };
  };
}

waiting_five-IsReady : Sound.IsReady waiting_five.buffer
unfolding first Waiting.lag
waiting_five-IsReady = record {
  waiting = record {
    valid = record {
      sorted = omega arith;
      nonempty = omega arith;
      counted = refl;
      behind = omega arith;
    };
    within = record { window = omega arith; room = omega arith };
  };
  known = record { sorted = tt; bounded = omega arith };
}

settled_below-le_example : 3 ≤ 5 - 2
unfolding settled_below get first Waiting.oldest oldest_pending_slot
settled_below-le_example =
    Settled.settled_below-le waiting_five 5 waiting_five-IsReady refl (ground arith)
