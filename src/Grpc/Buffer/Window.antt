-- ===== src/Grpc/Buffer/Window.antt =====
-- The window of slots of crates/indexer/src/infra/grpc/slot_timestamp_buffer.rs, and its facts.
use yog_sothoth.Prelude.{
  ℕ, suc, ◌+◌, ◌≤◌, ◌≡◌, ◌∙◌, refl, Option, none, some, [], ◌∷◌, arith, All-weaken, Bool, ◌==◌,
  if◌then◌else◌, ap,
}
use yog_sothoth.Prelude.Map.{
  Map, get, get_or, insert, SortedFrom, SortedFrom-insert, get-insert, Entries, Entries-insert,
}
use yog_sothoth.Grpc.Buffer.Banks.{Bank}
use yog_sothoth.Grpc.Buffer.Known.{
  KnownSlots, Facts, no_facts, Instant, SlotOutcome, at, given_up, Settlement, pending, losing,
  settled, settlement, kept, time, resolve, keep, update, trim, resolve_facts, give_up_facts,
  keep_facts,
}
use yog_sothoth.Grpc.Buffer.Known
use yog_sothoth.Grpc.Buffer.Known.Times.{get-trim_near, Entries-trim}
use yog_sothoth.Grpc.Buffer.Waiting.{
  WaitingSlots, unresolvable, push, release, observe, drop_losing, see, seen_head, take, evict, add,
  enforce_bounds, give_up, lag,
}
use yog_sothoth.Grpc.Buffer.Waiting.Invariant.{KeyBehind, KeyBehind-self, KeyBehind-seen}
use yog_sothoth.Grpc.Buffer.Waiting.Enforce.{enforce_bounds-IsSameStream, evict-IsSameStream}
use yog_sothoth.Grpc.Buffer.{
  SlotTimestampBuffer, on_payload, on_block_time, on_slot_unresolvable, on_finalized, settle,
  take_payload, settle_time, settle_kept, is_losing, drop_losing_of,
}
use yog_sothoth.Grpc.Buffer.Sound.{IsReady}
use yog_sothoth.Grpc.Buffer.Run.{Message, step}

module _ {ℓ} {T : Type ℓ} where
  -- `u` is `w` with the head moved to take `slot` in, and the same bounds.
  record Saw (slot : ℕ) (w u : WaitingSlots T) : Type 0 where
    head : u.head_slot ≡ seen_head slot w.head_slot
    slots : u.max_pending_slots ≡ w.max_pending_slots

  Saw-enforce_bounds :
      (slot : ℕ) (w u : WaitingSlots T) → Saw slot w u → Saw slot w (enforce_bounds u)
  Saw-enforce_bounds slot w u h =
      let s = enforce_bounds-IsSameStream u in
      record { head = s.head ∙ h.head; slots = s.slots ∙ h.slots }

  push-Saw : (slot : ℕ) (p : T) (w : WaitingSlots T) → Saw slot w (push slot p w)
  unfolding push see add
  push-Saw slot p w = Saw-enforce_bounds slot w _ (record { head = refl; slots = refl })

  observe-Saw : (slot : ℕ) (w : WaitingSlots T) → Saw slot w (observe slot w)
  unfolding observe see
  observe-Saw slot w = Saw-enforce_bounds slot w _ (record { head = refl; slots = refl })

  release-Saw : (slot : ℕ) (w : WaitingSlots T) → Saw slot w (release slot w).0
  unfolding release see take
  release-Saw slot w = Saw-enforce_bounds slot w _ (record { head = refl; slots = refl })

  give_up-Saw : (slot : ℕ) (w : WaitingSlots T) → Saw slot w (give_up slot w)
  unfolding give_up see
  give_up-Saw slot w =
      let same =
        evict-IsSameStream slot unresolvable (see slot w) (see slot w)
          (record { head = refl; slots = refl; payloads = refl }) in
      Saw-enforce_bounds slot w (evict slot unresolvable (see slot w))
        (record { head = same.head; slots = same.slots })

  drop_losing_same :
      (slot : ℕ) (lost : T → Bool) (w : WaitingSlots T)
      → ((drop_losing slot lost w).head_slot ≡ w.head_slot)
        × ((drop_losing slot lost w).max_pending_slots ≡ w.max_pending_slots)
  unfolding drop_losing
  drop_losing_same slot lost w = ground arith

near :
    (h : Option ℕ) (j window : ℕ) (m : Map Facts)
    → SortedFrom 0 m
    → Entries (λ k _. KeyBehind h k) m
    → lag (some j) h ≤ window
    → get j (trim (window + 1) m) ≡ get j m
unfolding lag
near none j window [] s b h = unfold trim in refl
near none j window ((k, f) ∷ m) s b h = absurd b.0
near (some hd) j window m s b h =
    get-trim_near 0 (suc hd) (window + 1) j m s (All-weaken _ _ (λ e le. omega arith) m b)
      (omega arith)

module _ {ℓ} {T : Type ℓ} where
  settle_time-Saw :
      (slot : ℕ) (b : SlotTimestampBuffer T) (o : Option SlotOutcome)
      → Saw slot b.waiting (settle_time slot b o).0.waiting
        × ((settle_time slot b o).0.known ≡ b.known)
  unfolding settle_time
  settle_time-Saw slot b (some (at t)) = (release-Saw slot b.waiting, refl)
  settle_time-Saw slot b (some given_up) = (give_up-Saw slot b.waiting, refl)
  settle_time-Saw slot b none = (observe-Saw slot b.waiting, refl)

  settle_kept-Saw :
      (slot : ℕ) (b : SlotTimestampBuffer T) (o : Option Bank)
      → Saw slot b.waiting (settle_kept slot b o).0.waiting
        × ((settle_kept slot b o).0.known ≡ b.known)
  unfolding settle_kept
  settle_kept-Saw slot b none = (observe-Saw slot b.waiting, refl)
  settle_kept-Saw slot b (some bank) =
      let (saw, same) = settle_time-Saw slot (drop_losing_of slot bank b) (time b.known slot) in
      let (head, slots) = drop_losing_same slot (is_losing bank) b.waiting in
      (record { head = saw.head ∙ ap (seen_head slot) head; slots = saw.slots ∙ slots }, same)

  -- The facts are of slots behind the head, and there is room for all of the window.
  pub record IsCovered (b : SlotTimestampBuffer T) : Type 0 where
    pub behind : Entries (λ k _. KeyBehind b.waiting.head_slot k) b.known.facts
    pub room : b.known.max_known_slots ≡ b.waiting.max_pending_slots + 1

  -- A slot that trails the head by at most the window.
  abbrev pub InWindow : SlotTimestampBuffer T → ℕ → Type 0
  InWindow b j = lag (some j) b.waiting.head_slot ≤ b.waiting.max_pending_slots

  -- What the slot's facts become by a message, with nothing forgotten.
  abbrev pub noted : Message T → ℕ → Option Facts → Option Facts
  noted (Message.payload slot bank p) j o = o
  noted (Message.block_time slot bank t) j o =
      if slot == j then some (resolve_facts bank t (get_or no_facts o)) else o
  noted (Message.no_block_time slot bank) j o =
      if slot == j then some (give_up_facts bank (get_or no_facts o)) else o
  noted (Message.finalized slot bank) j o =
      if slot == j then some (keep_facts bank (get_or no_facts o)) else o

  -- An update of the facts that the move of the head goes with.
  abbrev pub Remembers :
      ℕ → (Facts → Facts) → SlotTimestampBuffer T → SlotTimestampBuffer T → Type 0
  Remembers slot f b u =
      IsCovered u
      × ((j : ℕ)
          → InWindow u j
          → get j u.known.facts ≡ (
              if slot == j
              then some (f (get_or no_facts (get j b.known.facts)))
              else get j b.known.facts))

  inserted : ℕ → (Facts → Facts) → SlotTimestampBuffer T → Map Facts
  inserted slot f b = insert slot (f (get_or no_facts (get slot b.known.facts))) b.known.facts

  inserted-behind :
      (slot : ℕ) (f : Facts → Facts) (b : SlotTimestampBuffer T)
      → IsCovered b
      → Entries (λ k _. KeyBehind (seen_head slot b.waiting.head_slot) k) (inserted slot f b)
  unfolding inserted
  inserted-behind slot f b c =
      Entries-insert _ slot _ b.known.facts (KeyBehind-self slot b.waiting.head_slot)
        (All-weaken _ _ (λ e. KeyBehind-seen slot b.waiting.head_slot e.0) b.known.facts c.behind)

  get-inserted :
      (slot j : ℕ) (f : Facts → Facts) (b : SlotTimestampBuffer T)
      → get j (inserted slot f b) ≡ (
          if slot == j
          then some (f (get_or no_facts (get j b.known.facts)))
          else get j b.known.facts)
  unfolding inserted
  get-inserted slot j f b =
      ground (arith, get-insert slot j (f (get_or no_facts (get slot b.known.facts))) b.known.facts)

  settle-Remembers :
      (slot : ℕ) (f : Facts → Facts) (b : SlotTimestampBuffer T)
      → IsReady b
      → IsCovered b
      → Remembers slot f b (settle slot (record b { known = update b.known slot f })).0
  unfolding settle update inserted
  settle-Remembers slot f b r c =
      let b' : SlotTimestampBuffer T = record b { known = update b.known slot f } in
      let (saw, same) = settle_kept-Saw slot b' (kept b'.known slot) in
      let behind = inserted-behind slot f b c in
      (
        record {
          behind =
              rw (same, saw.head)
                (Entries-trim _ b.known.max_known_slots (inserted slot f b) behind);
          room = rw (same, saw.slots) c.room;
        },
        λ j w.
            rw (same, c.room)
              (near (seen_head slot b.waiting.head_slot) j b.waiting.max_pending_slots
                  (inserted slot f b)
                  (SortedFrom-insert 0 slot _ b.known.facts (omega arith) r.known.sorted) behind
                  (rw (saw.head, saw.slots) at w)
                ∙ get-inserted slot j f b),
      )

  -- A payload may move the head, and changes no facts.
  take_payload-Remembers :
      (slot : ℕ) (bank : Bank) (p : T) (b : SlotTimestampBuffer T) (s : Settlement)
      → IsCovered b
      → IsCovered (take_payload slot bank p b s).0
        × ((take_payload slot bank p b s).0.known ≡ b.known)
  unfolding take_payload
  take_payload-Remembers slot bank p b (settled (at t)) c = (c, refl)
  take_payload-Remembers slot bank p b (settled given_up) c =
      (record { behind = c.behind; room = c.room }, refl)
  take_payload-Remembers slot bank p b losing c =
      (record { behind = c.behind; room = c.room }, refl)
  take_payload-Remembers slot bank p b pending c =
      let saw = push-Saw slot (record { bank = bank; held = p }) b.waiting in
      (
        record {
          behind = rw saw.head (
              All-weaken _ _ (λ e. KeyBehind-seen slot b.waiting.head_slot e.0) b.known.facts
                c.behind);
          room = rw saw.slots c.room;
        },
        refl,
      )

  -- On a ready buffer whose table has room for the window and the head, no message makes the table
  -- forget a slot that is in the window afterwards: its facts are those it had with what the message
  -- says noted, and the room and the order with the head are kept.
  pub step_remembers :
      (b : SlotTimestampBuffer T) (c : Message T)
      → IsReady b
      → IsCovered b
      → IsCovered (step b c).0
        × ((j : ℕ)
            → InWindow (step b c).0 j
            → get j (step b c).0.known.facts ≡ noted c j (get j b.known.facts))
  unfolding step on_payload on_block_time on_slot_unresolvable on_finalized resolve Known.give_up
      keep
  step_remembers b (Message.payload slot bank p) r c =
      let (covered, same) = take_payload-Remembers slot bank p b (settlement b.known slot bank) c in
      (covered, λ j w. rw same)
  step_remembers b (Message.block_time slot bank t) r c =
      settle-Remembers slot (resolve_facts bank t) b r c
  step_remembers b (Message.no_block_time slot bank) r c =
      settle-Remembers slot (give_up_facts bank) b r c
  step_remembers b (Message.finalized slot bank) r c = settle-Remembers slot (keep_facts bank) b r c
