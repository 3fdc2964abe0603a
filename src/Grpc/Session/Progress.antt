-- ===== src/Grpc/Session/Progress.antt =====
-- crates/indexer/src/infra/grpc/session/slot_progress.rs: when a transaction can leave, and which
-- slots are settled. The wire's messages keep the fields read here; the conversion of a block time
-- to an instant (chrono's `DateTime::from_timestamp`) is a parameter.
pub mod Settled
pub mod Naming
use yog_sothoth.Prelude.{
  ℕ, ◌-◌, max, Bool, true, false, Option, none, some, List, [], if◌then◌else◌,
}
use yog_sothoth.Domain.Protocols.{Protocol}
use yog_sothoth.Grpc.Buffer.Banks.{Bank, id, unknown, from_wire, from_status}
use yog_sothoth.Grpc.Buffer.Known.{Instant}
use yog_sothoth.Grpc.Buffer.Waiting.{BufferMetrics, seen_head}
use yog_sothoth.Grpc.Buffer.{
  SlotTimestampBuffer, Resolved, on_payload, on_block_time, on_slot_unresolvable, on_finalized,
  oldest_pending_slot,
}
use yog_sothoth.Grpc.Buffer

abbrev pub held_back_slots : ℕ
held_back_slots = 2

-- `SubscribeUpdateTransaction`: its slot, its bank, and the rest that is only passed on.
pub record TransactionUpdate (M : Type 0) : Type 0 where
  pub slot : ℕ
  pub bank_id : ℕ
  pub message : M

pub record PendingTransaction (M : Type 0) : Type 0 where
  pub protocol : Protocol
  pub update : TransactionUpdate M

-- `SubscribeUpdateBlockMeta`.
pub record BlockMeta (Seconds : Type 0) : Type 0 where
  pub slot : ℕ
  pub bank_id : ℕ
  pub block_time : Option Seconds

pub data Level : Type 0 where
  processed confirmed finalized other_level : Level

-- `SubscribeUpdateSlot`.
pub record SlotStatus : Type 0 where
  pub slot : ℕ
  pub bank_id : Option ℕ
  pub status : Level

pub data BankIds : Type 0 where
  named missing : BankIds

-- `bank_id_missing` is the gauge that `record_bank_id_missing` sets.
pub record SlotProgress (M : Type 0) : Type 0 where
  pub buffer : SlotTimestampBuffer (PendingTransaction M)
  pub highest_meta_slot : Option ℕ
  pub bank_ids : Option BankIds
  pub bank_id_missing : Bool

unfoldable pub seen : Bank → BankIds
seen (id n) = named
seen unknown = missing

-- `changed`: `missing` stays, and `named` gives way to it.
unfoldable pub changed : Option BankIds → BankIds → Bool
changed none now = true
changed (some named) named = false
changed (some named) missing = true
changed (some missing) now = false

abbrev pub is_missing : BankIds → Bool
is_missing missing = true
is_missing named = false

abbrev pub or_else : Option ℕ → Option ℕ → Option ℕ
or_else none o = o
or_else (some n) o = some n

abbrev pub below : Option ℕ → Option ℕ
below none = none
below (some unfinished) = some (unfinished - held_back_slots)

module _ {M : Type 0} where
  unfoldable pub new : BufferMetrics → Bool → SlotProgress M
  new metrics gauge = record {
    buffer = Buffer.new metrics;
    highest_meta_slot = none;
    bank_ids = none;
    bank_id_missing = gauge;
  }

  unfoldable pub report_bank_naming : Bank → SlotProgress M → SlotProgress M
  unfolding changed seen
  report_bank_naming bank p =
      if changed p.bank_ids (seen bank)
      then record p { bank_ids = some (seen bank); bank_id_missing = is_missing (seen bank) }
      else p

  unfoldable pub on_transaction :
      PendingTransaction M
      → SlotProgress M
      → SlotProgress M × Option (Resolved (PendingTransaction M))
  on_transaction t p =
      let bank = from_wire t.update.bank_id in
      let p' = report_bank_naming bank p in
      let (b, released) = on_payload t.update.slot bank t p'.buffer in
      (record p' { buffer = b }, released)

  -- The tail of `on_block_meta`, on what `block_time` answers.
  unfoldable pub close_slot :
      ℕ
      → Bank
      → Option Instant
      → SlotProgress M
      → SlotProgress M × List (Resolved (PendingTransaction M))
  close_slot slot bank none p =
      let (b, released) = on_slot_unresolvable slot bank p.buffer in
      (record p { buffer = b }, released)
  close_slot slot bank (some t) p =
      let (b, released) = on_block_time slot bank t p.buffer in (record p { buffer = b }, released)

  abbrev pub see_meta : ℕ → SlotProgress M → SlotProgress M
  see_meta slot p = record p { highest_meta_slot = seen_head slot p.highest_meta_slot }

  -- The status is for the buffer only where it is `finalized`.
  unfoldable pub on_level :
      Level → SlotStatus → SlotProgress M → SlotProgress M × List (Resolved (PendingTransaction M))
  on_level finalized s p =
      let bank = from_status s.bank_id in
      let p' = report_bank_naming bank p in
      let (b, released) = on_finalized s.slot bank p'.buffer in (record p' { buffer = b }, released)
  on_level processed s p = (p, [])
  on_level confirmed s p = (p, [])
  on_level other_level s p = (p, [])

  unfoldable pub on_slot_status :
      SlotStatus → SlotProgress M → SlotProgress M × List (Resolved (PendingTransaction M))
  unfolding on_level
  on_slot_status s p = on_level s.status s p

  unfoldable pub settled_below : SlotProgress M → Option ℕ
  settled_below p = below (or_else (oldest_pending_slot p.buffer) p.highest_meta_slot)

module _ {Seconds : Type 0} (from_timestamp : Seconds → Option Instant) where
  unfoldable pub block_time : BlockMeta Seconds → Option Instant
  block_time meta = elim meta.block_time [ none ↦ none | some s ↦ from_timestamp s ]

module _ {M Seconds : Type 0} (from_timestamp : Seconds → Option Instant) where
  unfoldable pub on_block_meta :
      BlockMeta Seconds → SlotProgress M → SlotProgress M × List (Resolved (PendingTransaction M))
  on_block_meta meta p =
      let bank = from_wire meta.bank_id in
      close_slot meta.slot bank (block_time from_timestamp meta)
        (see_meta meta.slot (report_bank_naming bank p))
