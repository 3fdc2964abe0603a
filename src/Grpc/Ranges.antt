-- ===== src/Grpc/Ranges.antt =====
-- crates/indexer/src/infra/grpc/ranges_to_record.rs: where the sessions leave the spans they received
-- and the recorder takes them. A session is named by its start, an instant.
use yog_sothoth.Prelude.{ℕ, Bool, true, none, some, List, map}
use yog_sothoth.Prelude.Map.{Map, get, insert, remove}
use yog_sothoth.Domain.Protocols.{Protocol}
use yog_sothoth.Grpc.Buffer.Known.{Instant}
use yog_sothoth.Grpc.Session.Span.{ReceivedSpan}

pub record RangeToRecord : Type 0 where
  pub protocols : List Protocol
  pub span : ReceivedSpan
  pub ended : Bool

-- crates/core/src/domain/observed_slots/model.rs.
pub record ObservedSlots : Type 0 where
  pub protocol : Protocol
  pub session_started_at : Instant
  pub first_slot : ℕ
  pub first_slot_at : Instant
  pub last_slot : ℕ
  pub last_slot_at : Instant

-- `RangeToRecord::rows`.
unfoldable pub rows : RangeToRecord → Instant → List ObservedSlots
rows r session_started_at =
    map
      (λ protocol. record {
        protocol = protocol;
        session_started_at = session_started_at;
        first_slot = r.span.first;
        first_slot_at = r.span.first_at;
        last_slot = r.span.last;
        last_slot_at = r.span.last_at;
      })
      r.protocols

abbrev pub RangesToRecord : Type 0
RangesToRecord = Map RangeToRecord

unfoldable pub publish : Instant → RangeToRecord → RangesToRecord → RangesToRecord
publish session range m = insert session range m

unfoldable pub end_session : Instant → RangesToRecord → RangesToRecord
end_session session m = elim (get session m) [
  | none ↦ m
  | some range ↦ insert session (record range { ended = true }) m
]

unfoldable pub forget : Instant → RangesToRecord → RangesToRecord
forget session m = remove session m
