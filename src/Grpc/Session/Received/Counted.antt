-- ===== src/Grpc/Session/Received/Counted.antt =====
-- What crates/indexer/src/infra/grpc/session/received_slots.rs counts: each timed block-meta past the
-- start and below what is settled, and nothing else.
use yog_sothoth.Prelude.{
  ℕ, ◌≤◌, ◌<◌, ◌≡◌, ◌≢◌, ◌⊎◌, inl, inr, refl, max, false, Option, none, some, List, [], ◌∷◌, arith,
  leb, Bool-cases, All-weaken, dec_lt,
}
use yog_sothoth.Prelude.Map.{
  Map, get, split_below, split_from, get_or, SortedFrom, SortedFrom-insert, get-insert, Entries,
  Entries-insert,
}
use yog_sothoth.Prelude.Splits.{
  SortedFrom-split_from, Entries-split_from, Entries-split_below, get-split_below, get-split_from,
}
use yog_sothoth.Domain.Protocols.{Protocol}
use yog_sothoth.Grpc.Buffer.Known.{Instant}
use yog_sothoth.Grpc.Session.Span.{ReceivedSpan}
use yog_sothoth.Grpc.Ranges.{RangesToRecord}
use yog_sothoth.Grpc.Session.Received.{
  ReceivedSlots, new, start_of, widen_all, hold, count, on_block_meta, is_empty, on_block_meta_held,
}
use yog_sothoth.Grpc.Session.Received.Widening.{
  SpanWithin, KeyFrom, Counted, SpanWithin-mono, Counted-widen_all, SpanWithin-received,
  received-Counted,
}

-- Every slot counted lies below `hi`, and every slot counted or held is past the start.
pub record IsValid (hi : ℕ) (r : ReceivedSlots) : Type 0 where
  pub sorted : SortedFrom 0 r.not_yet
  pub past : Entries (λ k _. KeyFrom r.counted_from k) r.not_yet
  pub within : SpanWithin r.counted_from hi r.span

-- The slot is held or counted.
abbrev pub Has : ReceivedSlots → ℕ → Type 0
Has r j = (get j r.not_yet ≢ none) ⊎ Counted r.span j

pub new-IsValid : (now : Instant) (ps : List Protocol) → IsValid 0 (new now ps)
unfolding new
new-IsValid now ps = record { sorted = tt; past = tt; within = tt }

KeyFrom-start : (slot : ℕ) (c : Option ℕ) (k : ℕ) → KeyFrom c k → KeyFrom (some (start_of slot c)) k
unfolding start_of
KeyFrom-start slot none k h = absurd h
KeyFrom-start slot (some c) k h = h

SpanWithin-start :
    (slot : ℕ) (c : Option ℕ) (hi : ℕ) (s : Option ReceivedSpan)
    → SpanWithin c hi s
    → SpanWithin (some (start_of slot c)) hi s
unfolding start_of
SpanWithin-start slot c hi none w = tt
SpanWithin-start slot none hi (some s) w = absurd w
SpanWithin-start slot (some c) hi (some s) w = w

hold-IsValid :
    (slot hi : ℕ) (at : Instant) (r : ReceivedSlots) → IsValid hi r → IsValid hi (hold slot at r)
unfolding hold
hold-IsValid slot hi at r v =
    let past = All-weaken _ _ (λ e. KeyFrom-start slot r.counted_from e.0) r.not_yet v.past in
    elim (Bool-cases (leb (start_of slot r.counted_from) slot)) [
      | inl e ↦ record {
        sorted = rw e (SortedFrom-insert 0 slot at r.not_yet (omega arith) v.sorted);
        past = rw e (
            Entries-insert (λ k _. KeyFrom (some (start_of slot r.counted_from)) k) slot at
              r.not_yet (ground arith) past);
        within = SpanWithin-start slot r.counted_from hi r.span v.within;
      }
      | inr e ↦ record {
        sorted = rw e v.sorted;
        past = rw e past;
        within = SpanWithin-start slot r.counted_from hi r.span v.within;
      }
    ]

hold-Has :
    (slot j : ℕ) (at : Instant) (r : ReceivedSlots)
    → Has r j ⊎ ((j ≡ slot) × (start_of slot r.counted_from ≤ slot))
    → Has (hold slot at r) j
unfolding hold
hold-Has slot j at r (inl (inr c)) = inr c
hold-Has slot j at r (inl (inl g)) = inl (ground (arith, get-insert slot j at r.not_yet))
hold-Has slot j at r (inr (e, le)) = inl (ground (arith, get-insert slot j at r.not_yet))

module _ (hi below : ℕ) (r : ReceivedSlots) (v : IsValid hi r) where
  top : ℕ
  top = max hi below

  received_past :
      Entries (λ k _. (k < top) × KeyFrom r.counted_from k) (split_below below r.not_yet)
  unfolding top
  received_past =
      All-weaken _ _ (λ e h. (omega arith, h.1)) (split_below below r.not_yet)
        (Entries-split_below (λ k _. KeyFrom r.counted_from k) below r.not_yet v.past)

  raised : SpanWithin r.counted_from top r.span
  unfolding top
  raised = SpanWithin-mono r.counted_from hi (max hi below) r.span (omega arith) v.within

  count-IsValid :
      (l : Map Instant) (ranges : RangesToRecord)
      → Entries (λ k _. (k < top) × KeyFrom r.counted_from k) l
      → IsValid top (count below r l ranges).0
  unfolding count
  count-IsValid [] ranges h = record {
    sorted = SortedFrom-split_from 0 below r.not_yet v.sorted;
    past = Entries-split_from (λ k _. KeyFrom r.counted_from k) below r.not_yet v.past;
    within = raised;
  }
  count-IsValid (e ∷ l) ranges h = record {
    sorted = SortedFrom-split_from 0 below r.not_yet v.sorted;
    past = Entries-split_from (λ k _. KeyFrom r.counted_from k) below r.not_yet v.past;
    within = SpanWithin-received r.counted_from top r.span (e ∷ l) h raised;
  }

  -- What the two outcomes of `count` have in common.
  count_eq :
      (l : Map Instant) (ranges : RangesToRecord)
      → ((count below r l ranges).0.span ≡ widen_all r.span l)
        × ((count below r l ranges).0.not_yet ≡ split_from below r.not_yet)
  unfolding count widen_all
  count_eq [] ranges = (refl, refl)
  count_eq (e ∷ l) ranges = (refl, refl)

  count_below :
      (j : ℕ) (ranges : RangesToRecord)
      → Has r j
      → j < below
      → Counted (count below r (split_below below r.not_yet) ranges).0.span j
  count_below j ranges (inr c) h =
      rw (count_eq (split_below below r.not_yet) ranges).0
        (Counted-widen_all j r.span (split_below below r.not_yet) c)
  count_below j ranges (inl g) h = rw (count_eq (split_below below r.not_yet) ranges).0 (
      received-Counted r.counted_from top j r.span (split_below below r.not_yet) received_past
        raised (rw (get-split_below 0 below j r.not_yet v.sorted h) g))

  count-Has :
      (j : ℕ) (ranges : RangesToRecord)
      → Has r j
      → Has (count below r (split_below below r.not_yet) ranges).0 j
  count-Has j ranges h = elim (dec_lt j below) [
    | yes lt ↦ inr (count_below j ranges h lt)
    | no ge ↦ elim h [
      | inr c ↦ inr (
          rw (count_eq (split_below below r.not_yet) ranges).0
            (Counted-widen_all j r.span (split_below below r.not_yet) c))
      | inl g ↦ inl (
          rw (count_eq (split_below below r.not_yet) ranges).1
            (rw (get-split_from below j r.not_yet (omega arith)) g))
    ]
  ]

IsValid-mono : (lo hi : ℕ) (r : ReceivedSlots) → lo ≤ hi → IsValid lo r → IsValid hi r
IsValid-mono lo hi r h v = record {
  sorted = v.sorted;
  past = v.past;
  within = SpanWithin-mono r.counted_from lo hi r.span h v.within;
}

on_block_meta-IsValid :
    (slot hi : ℕ) (at : Instant) (settled : Option ℕ) (r : ReceivedSlots) (ranges : RangesToRecord)
    → IsValid hi r
    → IsValid (max hi (get_or 0 settled)) (on_block_meta slot at settled r ranges).0
unfolding on_block_meta top
on_block_meta-IsValid slot hi at settled r ranges v =
    let held = hold-IsValid slot hi at r v in
    elim (Bool-cases (is_empty r.protocols)) [
      | inl e ↦ rw e (IsValid-mono hi (max hi (get_or 0 settled)) r (omega arith) v)
      | inr e ↦ rw e (go settled held)
    ]
  where
    go :
        (o : Option ℕ)
        → IsValid hi (hold slot at r)
        → IsValid (max hi (get_or 0 o)) (on_block_meta_held o slot at r ranges).0
    go none held = IsValid-mono hi (max hi 0) (hold slot at r) (omega arith) held
    go (some below) held =
        count-IsValid hi below (hold slot at r) held (split_below below (hold slot at r).not_yet)
          ranges (received_past hi below (hold slot at r) held)

-- One call: the slot, its time, and what is settled.
abbrev pub Meta : Type 0
Meta = ℕ × Instant × Option ℕ

-- A session's timed block-metas in turn.
unfoldable pub run : List Meta → ReceivedSlots → RangesToRecord → ReceivedSlots × RangesToRecord
run [] r ranges = (r, ranges)
run ((slot, at, settled) ∷ ms) r ranges =
    let (r', ranges') = on_block_meta slot at settled r ranges in run ms r' ranges'

-- The highest bound that a call gave.
abbrev pub ceiling : ℕ → List Meta → ℕ
ceiling hi [] = hi
ceiling hi ((slot, at, settled) ∷ ms) = ceiling (max hi (get_or 0 settled)) ms

-- Whatever block-metas come to valid received slots, a slot that is counted lies past the start and
-- below a bound that was settled, and what is held is past the start.
pub run-IsValid :
    (hi : ℕ) (ms : List Meta) (r : ReceivedSlots) (ranges : RangesToRecord)
    → IsValid hi r
    → IsValid (ceiling hi ms) (run ms r ranges).0
unfolding run
run-IsValid hi [] r ranges v = v
run-IsValid hi ((slot, at, settled) ∷ ms) r ranges v =
    run-IsValid (max hi (get_or 0 settled)) ms (on_block_meta slot at settled r ranges).0
      (on_block_meta slot at settled r ranges).1
      (on_block_meta-IsValid slot hi at settled r ranges v)

-- On valid received slots, where a protocol is watched whole, a slot that is held, counted, or named
-- by this call past the start, stays so, and one that lies below what is settled is counted.
pub on_block_meta_counts :
    (slot j hi : ℕ) (at : Instant) (below : ℕ) (r : ReceivedSlots) (ranges : RangesToRecord)
    → IsValid hi r
    → r.protocols ≢ []
    → Has r j ⊎ ((j ≡ slot) × (start_of slot r.counted_from ≤ slot))
    → Has (on_block_meta slot at (some below) r ranges).0 j
      × (j < below → Counted (on_block_meta slot at (some below) r ranges).0.span j)
unfolding on_block_meta
on_block_meta_counts slot j hi at below r ranges v ne h =
    let held = hold-IsValid slot hi at r v in
    let has = hold-Has slot j at r h in
    let watched : is_empty r.protocols ≡ false = ground arith in
    rw watched (
      count-Has hi below (hold slot at r) held j ranges has,
      count_below hi below (hold slot at r) held j ranges has,
    )
