-- ===== src/Grpc/Recorder.antt =====
-- crates/indexer/src/infra/grpc/listener/slots_recorder.rs: what is written of the ranges, a period late.
-- The repository answers each row from outside.
pub mod Kept
pub mod Taken
use yog_sothoth.Prelude.{
  ℕ, ◌+◌, ◌≡◌, Bool, true, false, ◌&&◌, not, Option, none, some, List, [], ◌∷◌, ◌++◌, ◌==◌, retain,
  if◌then◌else◌,
}
use yog_sothoth.Prelude.Map.{Map, get, insert, remove}
use yog_sothoth.Grpc.Buffer.Known.{Instant}
use yog_sothoth.Grpc.Session.Span.{ReceivedSpan}
use yog_sothoth.Grpc.Ranges.{RangeToRecord, RangesToRecord, ObservedSlots, rows, forget}

-- `ReceivedSpan`'s derived equality.
abbrev pub same_span : ReceivedSpan → ReceivedSpan → Bool
same_span a b =
    (a.first == b.first)
    && (a.first_at == b.first_at)
    && (a.last == b.last)
    && (a.last_at == b.last_at)

-- `written.get(session) == Some(&range.span)`.
abbrev pub is_written : Map ReceivedSpan → Instant → ReceivedSpan → Bool
is_written written session span = elim (get session written) [
  | none ↦ false
  | some w ↦ same_span w span
]

-- `record`: every row is tried, and one that fails leaves the range unrecorded.
unfoldable pub record_rows : (ObservedSlots → Bool) → List ObservedSlots → Bool
record_rows stored [] = true
record_rows stored (row ∷ rest) = let tail = record_rows stored rest in stored row && tail

-- The ranges that are due and not written.
unfoldable pub changed :
    Map ReceivedSpan → List (Instant × RangeToRecord) → List (Instant × RangeToRecord)
changed written = retain (λ e. not (is_written written e.0 e.1.span))

-- What the first loop leaves written: a range of which every row is stored.
unfoldable pub write_changed :
    (ObservedSlots → Bool) → List (Instant × RangeToRecord) → Map ReceivedSpan → Map ReceivedSpan
write_changed stored [] written = written
write_changed stored ((session, range) ∷ due) written =
    write_changed stored due (
      if record_rows stored (rows range session)
      then insert session range.span written
      else written)

-- The ranges that are over and whose last span is written.
unfoldable pub finished :
    Map ReceivedSpan → List (Instant × RangeToRecord) → List (Instant × RangeToRecord)
finished written = retain (λ e. e.1.ended && is_written written e.0 e.1.span)

-- What the second loop takes out.
unfoldable pub forget_all :
    List (Instant × RangeToRecord)
    → Map ReceivedSpan
    → RangesToRecord
    → Map ReceivedSpan × RangesToRecord
forget_all [] written ranges = (written, ranges)
forget_all ((session, range) ∷ rest) written ranges =
    forget_all rest (remove session written) (forget session ranges)

unfoldable pub write :
    (ObservedSlots → Bool)
    → List (Instant × RangeToRecord)
    → Map ReceivedSpan
    → RangesToRecord
    → Map ReceivedSpan × RangesToRecord
write stored due written ranges =
    let written' = write_changed stored (changed written due) written in
    forget_all (finished written' due) written' ranges

-- The loop of `run`: a write at each tick, of what the tick before saw, and one more of that when the
-- recording stops. Between the ticks the sessions move the ranges.
pub record Tick : Type 0 where
  pub stored : ObservedSlots → Bool
  pub moved : RangesToRecord → RangesToRecord

unfoldable pub run :
    List Tick
    → List (Instant × RangeToRecord)
    → Map ReceivedSpan
    → RangesToRecord
    → Map ReceivedSpan × RangesToRecord
run [] due written ranges = (written, ranges)
run (t ∷ ts) due written ranges =
    let (written', ranges') = write t.stored due written (t.moved ranges) in
    run ts ranges' written' ranges'
