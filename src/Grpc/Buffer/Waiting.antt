-- ===== src/Grpc/Buffer/Waiting.antt =====
-- crates/indexer/src/infra/grpc/slot_timestamp_buffer/waiting_slots.rs: the payloads that wait for
-- their slot's instant, and the two bounds on them. The process-wide counters and peaks of
-- crates/indexer/src/infra/grpc/metrics.rs are a field of the state.
pub mod Invariant
pub mod Enforce
pub mod Entries
pub mod Survivors
use yog_sothoth.Prelude.{
  ℕ, zero, suc, ◌+◌, ◌-◌, max, Bool, true, false, Option, none, some, List, [], ◌∷◌, ◌++◌, ltb, not,
  if◌then◌else◌, length, retain,
}
use yog_sothoth.Prelude.Map.{Map, get, insert, remove, get_or, first, last}

pub data EvictionReason : Type 0 where
  slot_bound payload_bound unresolvable : EvictionReason

pub record BufferMetrics : Type 0 where
  pub evicted_slot_bound : ℕ
  pub evicted_payload_bound : ℕ
  pub evicted_unresolvable : ℕ
  pub losing_bank : ℕ
  pub pending_payloads_peak : ℕ
  pub slot_lag_peak : ℕ

unfoldable pub record_evicted : ℕ → EvictionReason → BufferMetrics → BufferMetrics
record_evicted n slot_bound m = record m { evicted_slot_bound = m.evicted_slot_bound + n }
record_evicted n payload_bound m = record m { evicted_payload_bound = m.evicted_payload_bound + n }
record_evicted n unresolvable m = record m { evicted_unresolvable = m.evicted_unresolvable + n }

unfoldable pub record_losing_bank : ℕ → BufferMetrics → BufferMetrics
record_losing_bank n m = record m { losing_bank = m.losing_bank + n }

-- `WaitingPeaks::record`: each peak keeps the highest value it was given.
unfoldable pub record_peaks : ℕ → ℕ → BufferMetrics → BufferMetrics
record_peaks payloads lag m = record m {
  pending_payloads_peak = max m.pending_payloads_peak payloads;
  slot_lag_peak = max m.slot_lag_peak lag;
}

pub data Bound : Type 0 where
  slots payloads : Bound

unfoldable pub reason : Bound → EvictionReason
reason slots = slot_bound
reason payloads = payload_bound

pub record WaitingSlots {ℓ} (T : Type ℓ) : Type ℓ where
  pub pending : Map (List T)
  pub count : ℕ
  pub head_slot : Option ℕ
  pub max_pending_slots : ℕ
  pub max_pending_payloads : ℕ
  pub metrics : BufferMetrics

-- `head.saturating_sub(oldest)` where both are known, 0 otherwise.
unfoldable pub lag : Option ℕ → Option ℕ → ℕ
lag (some oldest) (some head) = head - oldest
lag (some oldest) none = 0
lag none head = 0

-- `head_slot.map_or(slot, |head| head.max(slot))`.
unfoldable pub seen_head : ℕ → Option ℕ → Option ℕ
seen_head slot none = some slot
seen_head slot (some head) = some (max head slot)

module _ {ℓ} {T : Type ℓ} where
  unfoldable pub new : ℕ → ℕ → BufferMetrics → WaitingSlots T
  new max_slots max_payloads metrics = record {
    pending = [];
    count = 0;
    head_slot = none;
    max_pending_slots = max_slots;
    max_pending_payloads = max_payloads;
    metrics = metrics;
  }

  unfoldable pub oldest : WaitingSlots T → Option ℕ
  oldest w = first w.pending

  unfoldable pub oldest_lag : WaitingSlots T → ℕ
  unfolding oldest lag
  oldest_lag w = lag (oldest w) w.head_slot

  unfoldable pub see : ℕ → WaitingSlots T → WaitingSlots T
  unfolding seen_head
  see slot w = record w { head_slot = seen_head slot w.head_slot }

  -- What `take` returns.
  unfoldable pub waiting_for : ℕ → WaitingSlots T → List T
  waiting_for slot w = get_or [] (get slot w.pending)

  -- What `take` leaves.
  unfoldable pub take : ℕ → WaitingSlots T → WaitingSlots T
  unfolding waiting_for
  take slot w = record w {
    pending = remove slot w.pending;
    count = w.count - length (waiting_for slot w);
  }

  abbrev is_empty : List T → Bool
  is_empty [] = true
  is_empty (x ∷ xs) = false

  unfoldable pub evict : ℕ → EvictionReason → WaitingSlots T → WaitingSlots T
  unfolding take
  evict slot why w = if is_empty (waiting_for slot w) then take slot w else record (take slot w) {
    metrics = record_evicted (length (waiting_for slot w)) why w.metrics;
  }

  unfoldable pub oldest_is_out_of_window : WaitingSlots T → Bool
  unfolding oldest_lag
  oldest_is_out_of_window w = ltb w.max_pending_slots (oldest_lag w)

  unfoldable pub exceeded_bound : WaitingSlots T → Option Bound
  unfolding oldest_is_out_of_window
  exceeded_bound w =
      if oldest_is_out_of_window w
      then some slots
      else if ltb w.max_pending_payloads w.count
      then some payloads
      else none

  unfoldable pub victim : WaitingSlots T → Bound → Option ℕ
  victim w slots = first w.pending
  victim w payloads = last w.pending

  -- The loop of `enforce_bounds`; each round evicts a slot, so the fuel is the number of slots.
  unfoldable pub evict_exceeding : ℕ → WaitingSlots T → WaitingSlots T
  evict_exceeding zero w = w
  evict_exceeding (suc fuel) w = elim (exceeded_bound w) [
    | none ↦ w
    | some bound ↦ elim (victim w bound) [
      | none ↦ w
      | some slot ↦ evict_exceeding fuel (evict slot (reason bound) w)
    ]
  ]

  unfoldable pub enforce_bounds : WaitingSlots T → WaitingSlots T
  enforce_bounds w =
      evict_exceeding (suc (length w.pending))
        (record w { metrics = record_peaks w.count (oldest_lag w) w.metrics })

  unfoldable pub add : ℕ → T → WaitingSlots T → WaitingSlots T
  add slot payload w = record w {
    pending = insert slot (get_or [] (get slot w.pending) ++ payload ∷ []) w.pending;
    count = w.count + 1;
  }

  unfoldable pub push : ℕ → T → WaitingSlots T → WaitingSlots T
  push slot payload w = enforce_bounds (add slot payload (see slot w))

  -- The state that `release` leaves, and what it returns.
  unfoldable pub release : ℕ → WaitingSlots T → WaitingSlots T × List T
  release slot w = (enforce_bounds (take slot (see slot w)), waiting_for slot (see slot w))

  unfoldable pub observe : ℕ → WaitingSlots T → WaitingSlots T
  observe slot w = enforce_bounds (see slot w)

  unfoldable pub give_up : ℕ → WaitingSlots T → WaitingSlots T
  give_up slot w = enforce_bounds (evict slot unresolvable (see slot w))

  -- The entry that `retain` changed, gone where nothing is left.
  abbrev put_back : ℕ → List T → Map (List T) → Map (List T)
  put_back slot [] m = remove slot m
  put_back slot (x ∷ xs) m = insert slot (x ∷ xs) m

  abbrev retained : (T → Bool) → List T → List T
  retained is_losing = retain (λ p. not (is_losing p))

  unfoldable pub drop_losing : ℕ → (T → Bool) → WaitingSlots T → WaitingSlots T
  drop_losing slot is_losing w = elim (get slot w.pending) [
    | none ↦ w
    | some waiting ↦
        let left = retained is_losing waiting in
        let dropped = length waiting - length left in
        let pending' = put_back slot left w.pending in
        elim dropped [
          | zero ↦ record w { pending = pending' }
          | suc n ↦ record w {
            pending = pending';
            count = w.count - suc n;
            metrics = record_losing_bank (suc n) w.metrics;
          }
        ]
  ]
