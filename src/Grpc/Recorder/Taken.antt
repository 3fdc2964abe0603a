-- ===== src/Grpc/Recorder/Taken.antt =====
-- The rows that crates/indexer/src/infra/grpc/listener/slots_recorder.rs hands to the repository.
use mathlib.Core.List.{Mem}
use yog_sothoth.Prelude.{◌≡◌, ◌≢◌, subst, Bool, true, none, List, [], ◌∷◌, map, All, All-weaken}
use yog_sothoth.Prelude.Map.{Map, get}
use yog_sothoth.Domain.Protocols.{Protocol}
use yog_sothoth.Grpc.Buffer.Known.{Instant}
use yog_sothoth.Grpc.Session.Span.{ReceivedSpan}
use yog_sothoth.Grpc.Ranges.{RangeToRecord, RangesToRecord, ObservedSlots, rows}
use yog_sothoth.Grpc.Recorder.{record_rows, write}
use yog_sothoth.Grpc.Recorder.Kept.{
  AllStored, Stores, and_left, and_right, write-AllStored, forgets-Stored,
}

All-map :
    {A B : Type 0} (P : B → Type 0) (f : A → B) (xs : List A)
    → All P (map f xs)
    → All (λ x. P (f x)) xs
All-map P f [] h = tt
All-map P f (x ∷ xs) h = (h.0, All-map P f xs h.1)

-- The row of a span for one protocol of its session.
abbrev pub row_of : Instant → ReceivedSpan → Protocol → ObservedSlots
row_of session span protocol = record {
  protocol = protocol;
  session_started_at = session;
  first_slot = span.first;
  first_slot_at = span.first_at;
  last_slot = span.last;
  last_slot_at = span.last_at;
}

record_rows-All :
    (stored : ObservedSlots → Bool) (rs : List ObservedSlots)
    → record_rows stored rs ≡ true
    → All (λ row. stored row ≡ true) rs
unfolding record_rows
record_rows-All stored [] e = tt
record_rows-All stored (row ∷ rs) e = (and_left _ _ e, record_rows-All stored rs (and_right _ _ e))

module _ (IsTaken : ObservedSlots → Type 0) (protocols : Instant → List Protocol) where
  -- The repository has taken the row of the span for each protocol of the session.
  abbrev pub IsStored : Instant → ReceivedSpan → Type 0
  IsStored session span = All (λ p. IsTaken (row_of session span p)) (protocols session)

  rows-IsStored :
      (stored : ObservedSlots → Bool)
      → ((row : ObservedSlots) → stored row ≡ true → IsTaken row)
      → (session : Instant) (range : RangeToRecord) → range.protocols ≡ protocols session
      → record_rows stored (rows range session) ≡ true
      → IsStored session range.span
  unfolding rows
  rows-IsStored stored takes session range same e =
      subst (λ ps. All (λ p. IsTaken (row_of session range.span p)) ps) same
        (All-map IsTaken (row_of session range.span) range.protocols
          (All-weaken _ IsTaken takes _ (record_rows-All stored _ e)))

  -- Where a row that the repository accepts is taken, the due ranges have the protocols of their
  -- sessions, and every span marked as written has its row taken for each protocol of its
  -- session, this holds of the spans marked after a write, and each session that the write takes
  -- out of the ranges was due, is over, and has the row of its last span taken for each of its
  -- protocols.
  pub write_forgets :
      (stored : ObservedSlots → Bool) (due : List (Instant × RangeToRecord)) (m : Map ReceivedSpan)
      (ranges : RangesToRecord)
      → ((row : ObservedSlots) → stored row ≡ true → IsTaken row)
      → All (λ e. e.1.protocols ≡ protocols e.0) due
      → AllStored IsStored m
      → AllStored IsStored (write stored due m ranges).0
        × ((session : Instant)
            → get session ranges ≢ none
            → get session (write stored due m ranges).1 ≡ none
            → (range : RangeToRecord) × (Mem (session, range) due
                × (range.ended ≡ true)
                × IsStored session range.span))
  write_forgets stored due m ranges takes same h =
      let stores : Stores IsStored stored due =
        All-weaken _ _ (λ e. rows-IsStored stored takes e.0 e.1) due same in
      (
        write-AllStored IsStored stored due m ranges stores h,
        λ session. forgets-Stored IsStored stored due m ranges session stores h,
      )
