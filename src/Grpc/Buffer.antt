-- ===== src/Grpc/Buffer.antt =====
-- crates/indexer/src/infra/grpc/slot_timestamp_buffer.rs: pairs each payload with the block time of
-- the bank its slot kept, in whatever order the three messages come.
pub mod Banks
pub mod Known
pub mod Waiting
pub mod Run
pub mod Sound
pub mod Verdicts
pub mod Window
use yog_sothoth.Prelude.{ℕ, ◌+◌, Bool, Option, none, some, List, [], map, not}
use yog_sothoth.Grpc.Buffer.Banks.{Bank, admits}
use yog_sothoth.Grpc.Buffer.Known.{
  KnownSlots, Instant, SlotOutcome, at, given_up, Settlement, pending, losing, settled, settlement,
  kept, time, resolve, keep,
}
use yog_sothoth.Grpc.Buffer.Known
use yog_sothoth.Grpc.Buffer.Waiting.{
  WaitingSlots, BufferMetrics, record_evicted, record_losing_bank, unresolvable, push, release,
  observe, drop_losing, oldest,
}
use yog_sothoth.Grpc.Buffer.Waiting

abbrev pub max_pending_slots : ℕ
max_pending_slots = 256

abbrev pub max_pending_payloads : ℕ
max_pending_payloads = 8192

abbrev pub max_known_slots : ℕ
max_known_slots = max_pending_slots + 1

pub record Resolved {ℓ} (T : Type ℓ) : Type ℓ where
  pub payload : T
  pub at_instant : Instant

pub record Held {ℓ} (T : Type ℓ) : Type ℓ where
  pub bank : Bank
  pub held : T

pub record SlotTimestampBuffer {ℓ} (T : Type ℓ) : Type ℓ where
  pub waiting : WaitingSlots (Held T)
  pub known : KnownSlots

-- What `admits` says of a payload, turned round for `drop_losing`.
abbrev pub is_losing {ℓ} : {T : Type ℓ} → Bank → Held T → Bool
is_losing kept h = not (admits kept h.bank)

module _ {ℓ} {T : Type ℓ} where
  unfoldable pub with_bounds : ℕ → ℕ → ℕ → BufferMetrics → SlotTimestampBuffer T
  with_bounds slots payloads facts metrics = record {
    waiting = Waiting.new slots payloads metrics;
    known = Known.new facts;
  }

  unfoldable pub new : BufferMetrics → SlotTimestampBuffer T
  unfolding with_bounds
  new = with_bounds max_pending_slots max_pending_payloads max_known_slots

  -- The counters are those of the process: the two early returns count there.
  abbrev count_late :
      SlotTimestampBuffer T → (BufferMetrics → BufferMetrics) → SlotTimestampBuffer T
  count_late b f = record b { waiting = record b.waiting { metrics = f b.waiting.metrics } }

  -- The `match` of `on_payload`.
  unfoldable pub take_payload :
      ℕ
      → Bank
      → T
      → SlotTimestampBuffer T
      → Settlement
      → SlotTimestampBuffer T × Option (Resolved T)
  take_payload slot bank payload b (settled (at t)) =
      (b, some (record { payload = payload; at_instant = t }))
  take_payload slot bank payload b (settled given_up) =
      (count_late b (record_evicted 1 unresolvable), none)
  take_payload slot bank payload b losing = (count_late b (record_losing_bank 1), none)
  take_payload slot bank payload b pending =
      (record b { waiting = push slot (record { bank = bank; held = payload }) b.waiting }, none)

  unfoldable pub on_payload :
      ℕ → Bank → T → SlotTimestampBuffer T → SlotTimestampBuffer T × Option (Resolved T)
  unfolding take_payload
  on_payload slot bank payload b = take_payload slot bank payload b (settlement b.known slot bank)

  abbrev pub stamp : Instant → List (Held T) → List (Resolved T)
  stamp t = map (λ h. record { payload = h.held; at_instant = t })

  abbrev release_at :
      ℕ → Instant → SlotTimestampBuffer T → SlotTimestampBuffer T × List (Resolved T)
  release_at slot t b =
      (record b { waiting = (release slot b.waiting).0 }, stamp t (release slot b.waiting).1)

  -- The second `match` of `settle`.
  unfoldable pub settle_time :
      ℕ → SlotTimestampBuffer T → Option SlotOutcome → SlotTimestampBuffer T × List (Resolved T)
  settle_time slot b (some (at t)) = release_at slot t b
  settle_time slot b (some given_up) = (record b { waiting = Waiting.give_up slot b.waiting }, [])
  settle_time slot b none = (record b { waiting = observe slot b.waiting }, [])

  abbrev pub drop_losing_of : ℕ → Bank → SlotTimestampBuffer T → SlotTimestampBuffer T
  drop_losing_of slot kept b = record b { waiting = drop_losing slot (is_losing kept) b.waiting }

  -- `settle`, on what `kept` answers.
  unfoldable pub settle_kept :
      ℕ → SlotTimestampBuffer T → Option Bank → SlotTimestampBuffer T × List (Resolved T)
  unfolding settle_time
  settle_kept slot b none = (record b { waiting = observe slot b.waiting }, [])
  settle_kept slot b (some bank) = settle_time slot (drop_losing_of slot bank b) (time b.known slot)

  unfoldable pub settle : ℕ → SlotTimestampBuffer T → SlotTimestampBuffer T × List (Resolved T)
  unfolding settle_kept
  settle slot b = settle_kept slot b (kept b.known slot)

  unfoldable pub on_block_time :
      ℕ → Bank → Instant → SlotTimestampBuffer T → SlotTimestampBuffer T × List (Resolved T)
  unfolding settle
  on_block_time slot bank t b = settle slot (record b { known = resolve b.known slot bank t })

  unfoldable pub on_slot_unresolvable :
      ℕ → Bank → SlotTimestampBuffer T → SlotTimestampBuffer T × List (Resolved T)
  unfolding settle
  on_slot_unresolvable slot bank b =
      settle slot (record b { known = Known.give_up b.known slot bank })

  unfoldable pub on_finalized :
      ℕ → Bank → SlotTimestampBuffer T → SlotTimestampBuffer T × List (Resolved T)
  unfolding settle
  on_finalized slot bank b = settle slot (record b { known = keep b.known slot bank })

  unfoldable pub oldest_pending_slot : SlotTimestampBuffer T → Option ℕ
  oldest_pending_slot b = oldest b.waiting
