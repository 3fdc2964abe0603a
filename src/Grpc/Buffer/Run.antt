-- ===== src/Grpc/Buffer/Run.antt =====
-- A session's messages for the buffer of crates/indexer/src/infra/grpc/slot_timestamp_buffer.rs, one
-- after another.
use yog_sothoth.Prelude.{ℕ, Option, none, some, List, [], ◌∷◌, ◌++◌}
use yog_sothoth.Grpc.Buffer.Banks.{Bank}
use yog_sothoth.Grpc.Buffer.Known.{Instant}
use yog_sothoth.Grpc.Buffer.{
  Resolved, SlotTimestampBuffer, on_payload, on_block_time, on_slot_unresolvable, on_finalized,
}

-- One message for the buffer.
pub data Message {ℓ} (T : Type ℓ) : Type ℓ where
  payload : ℕ → Bank → T → Message T
  block_time : ℕ → Bank → Instant → Message T
  no_block_time : ℕ → Bank → Message T
  finalized : ℕ → Bank → Message T

module _ {ℓ} {T : Type ℓ} where
  abbrev pub to_list : Option (Resolved T) → List (Resolved T)
  to_list none = []
  to_list (some r) = r ∷ []

  unfoldable pub step :
      SlotTimestampBuffer T → Message T → SlotTimestampBuffer T × List (Resolved T)
  unfolding on_payload on_block_time on_slot_unresolvable on_finalized
  step b (payload slot bank p) = let (b', r) = on_payload slot bank p b in (b', to_list r)
  step b (block_time slot bank t) = on_block_time slot bank t b
  step b (no_block_time slot bank) = on_slot_unresolvable slot bank b
  step b (finalized slot bank) = on_finalized slot bank b

  -- A whole session's messages, and all that was released, in order.
  unfoldable pub run :
      SlotTimestampBuffer T → List (Message T) → SlotTimestampBuffer T × List (Resolved T)
  run b [] = (b, [])
  run b (c ∷ cs) = let (b', out) = step b c in let (b'', rest) = run b' cs in (b'', out ++ rest)
