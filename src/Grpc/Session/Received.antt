-- ===== src/Grpc/Session/Received.antt =====
-- crates/indexer/src/infra/grpc/session/received_slots.rs: what one session counts as received for
-- good. The shared ranges are passed in and returned.
pub mod Widening
pub mod Counted
use yog_sothoth.Prelude.{
  ℕ, ◌+◌, ◌-◌, ◌^◌, min, Bool, true, false, Option, none, some, List, [], ◌∷◌, leb, if◌then◌else◌,
}
use yog_sothoth.Prelude.Map.{Map, insert, split_below, split_from, get_or}
use yog_sothoth.Domain.Protocols.{Protocol}
use yog_sothoth.Grpc.Buffer.Known.{Instant}
use yog_sothoth.Grpc.Session.Span.{ReceivedSpan, starting, include}
use yog_sothoth.Grpc.Session.Progress.{held_back_slots}
use yog_sothoth.Grpc.Ranges.{RangesToRecord, publish, end_session}

pub record ReceivedSlots : Type 0 where
  pub started_at : Instant
  pub protocols : List Protocol
  pub span : Option ReceivedSpan
  pub counted_from : Option ℕ
  pub not_yet : Map Instant

unfoldable pub new : Instant → List Protocol → ReceivedSlots
new now protocols = record {
  started_at = now;
  protocols = protocols;
  span = none;
  counted_from = none;
  not_yet = [];
}

abbrev pub u64_max : ℕ
u64_max = 18_446_744_073_709_551_615

-- `slot.saturating_add(HELD_BACK_SLOTS)`, unless a start is set.
unfoldable pub start_of : ℕ → Option ℕ → ℕ
start_of slot counted = get_or (min (slot + held_back_slots) u64_max) counted

-- One round of the loop over the slots received.
unfoldable pub widen : Option ReceivedSpan → ℕ → Instant → Option ReceivedSpan
widen none slot at = some (starting slot at)
widen (some s) slot at = some (include slot at s)

unfoldable pub widen_all : Option ReceivedSpan → Map Instant → Option ReceivedSpan
unfolding widen
widen_all span [] = span
widen_all span ((slot, at) ∷ l) = widen_all (widen span slot at) l

-- The first half: the start is set, and the slot is held.
unfoldable pub hold : ℕ → Instant → ReceivedSlots → ReceivedSlots
unfolding start_of
hold slot at r =
    let from = start_of slot r.counted_from in
    record r {
      counted_from = some from;
      not_yet = if leb from slot then insert slot at r.not_yet else r.not_yet;
    }

abbrev publish_span : ReceivedSlots → RangesToRecord → RangesToRecord
publish_span r ranges = elim r.span [
  | none ↦ ranges
  | some span ↦
      publish r.started_at (record { protocols = r.protocols; span = span; ended = false }) ranges
]

-- The second half, below a known bound; `received` are the slots below it.
unfoldable pub count :
    ℕ → ReceivedSlots → Map Instant → RangesToRecord → ReceivedSlots × RangesToRecord
count below r [] ranges = (record r { not_yet = split_from below r.not_yet }, ranges)
count below r (e ∷ l) ranges =
    let r' = record r { not_yet = split_from below r.not_yet; span = widen_all r.span (e ∷ l) } in
    (r', publish_span r' ranges)

abbrev is_empty : List Protocol → Bool
is_empty [] = true
is_empty (p ∷ ps) = false

-- What follows the hold, on what is settled.
abbrev on_block_meta_held :
    Option ℕ → ℕ → Instant → ReceivedSlots → RangesToRecord → ReceivedSlots × RangesToRecord
on_block_meta_held none slot at r ranges = (hold slot at r, ranges)
on_block_meta_held (some below) slot at r ranges =
    count below (hold slot at r) (split_below below (hold slot at r).not_yet) ranges

unfoldable pub on_block_meta :
    ℕ → Instant → Option ℕ → ReceivedSlots → RangesToRecord → ReceivedSlots × RangesToRecord
on_block_meta slot at settled_below r ranges =
    if is_empty r.protocols then (r, ranges) else on_block_meta_held settled_below slot at r ranges

-- `Drop`.
unfoldable pub drop : ReceivedSlots → RangesToRecord → RangesToRecord
drop r ranges = end_session r.started_at ranges
