-- ===== src/Grpc/Buffer/Verdicts.antt =====
-- The verdicts of crates/indexer/src/infra/grpc/slot_timestamp_buffer.rs, and the payloads that wait.
use yog_sothoth.Prelude.{
  ℕ, ◌≡◌, ◌≢◌, refl, Option, none, some, List, [], ◌∷◌, arith, All, ap, ℕ_discrete, All-any,
  All-weaken, not, retain,
}
use yog_sothoth.Prelude.Map.{SortedFrom, Entries}
use yog_sothoth.Grpc.Buffer.Banks.{Bank}
use yog_sothoth.Grpc.Buffer.Known.{
  KnownSlots, Facts, Instant, SlotOutcome, at, given_up, Settlement, pending, losing, settled,
  settlement, kept, time, resolve, keep, update, resolve_facts, give_up_facts, keep_facts,
}
use yog_sothoth.Grpc.Buffer.Known
use yog_sothoth.Grpc.Buffer.Known.Times.{
  settlement-update_ne, settlement_unkept, settlement-eq-pending,
}
use yog_sothoth.Grpc.Buffer.Waiting.{release, waiting_for, see}
use yog_sothoth.Grpc.Buffer.Waiting.Entries
use yog_sothoth.Grpc.Buffer.Waiting.Invariant
use yog_sothoth.Grpc.Buffer.{
  Resolved, Held, SlotTimestampBuffer, settle, take_payload, settle_time, settle_kept, is_losing,
  drop_losing_of, stamp,
}
use yog_sothoth.Grpc.Buffer.Sound.{IsReady, run-Settles}
use yog_sothoth.Grpc.Buffer.Run.{Message, step, run}

module _ {ℓ} {T : Type ℓ} where
  -- No answer is known for a payload that waits.
  abbrev pub IsOpen : KnownSlots → ℕ → Held T → Type 0
  IsOpen k slot h = settlement k slot h.bank ≡ pending

  -- Every payload that waits has an open verdict.
  abbrev pub IsUnsettled : SlotTimestampBuffer T → Type 0
  IsUnsettled b = Entries (λ j v. All (IsOpen b.known j) v) b.waiting.pending

  -- The same, but for one slot.
  abbrev IsUnsettledBut : ℕ → SlotTimestampBuffer T → Type 0
  IsUnsettledBut slot b = Entries (λ j v. j ≢ slot → All (IsOpen b.known j) v) b.waiting.pending

  take_payload-IsUnsettled :
      (slot : ℕ) (bank : Bank) (p : T) (b : SlotTimestampBuffer T) (s : Settlement)
      → settlement b.known slot bank ≡ s
      → IsUnsettled b
      → IsUnsettled (take_payload slot bank p b s).0
  unfolding take_payload
  take_payload-IsUnsettled slot bank p b (settled (at t)) e u = u
  take_payload-IsUnsettled slot bank p b (settled given_up) e u = u
  take_payload-IsUnsettled slot bank p b losing e u = u
  take_payload-IsUnsettled slot bank p b pending e u =
      Entries.Entries-push (IsOpen b.known) slot (record { bank = bank; held = p }) b.waiting e u

  -- Dropping a bank's payloads leaves the other slots as they were.
  drop_losing-IsUnsettledBut :
      (slot : ℕ) (b : SlotTimestampBuffer T) (kept' : Bank)
      → SortedFrom 0 b.waiting.pending
      → IsUnsettledBut slot b
      → IsUnsettledBut slot (drop_losing_of slot kept' b)
  drop_losing-IsUnsettledBut slot b kept' s u =
      All-weaken _ _ (λ e h ne. All-weaken _ _ (λ p f. f ne) e.1 h) _
        (Entries.Entries-drop_losing (λ j h. j ≢ slot → IsOpen b.known j h) slot (is_losing kept')
          b.waiting s (λ p _ ne. absurd (ne refl))
          (All-weaken _ _ (λ e h ne. All-weaken _ _ (λ p o _. o) e.1 (h ne)) _ u))

  settle_time-IsUnsettled :
      (slot : ℕ) (b : SlotTimestampBuffer T) (kept' : Bank) (o : Option SlotOutcome)
      → Invariant.IsValid b.waiting
      → kept b.known slot ≡ some kept'
      → time b.known slot ≡ o
      → IsUnsettledBut slot b
      → IsUnsettled (settle_time slot (drop_losing_of slot kept' b) o).0
  unfolding settle_time
  settle_time-IsUnsettled slot b kept' (some (at t)) v k e u =
      Entries.Entries-release (λ j v. All (IsOpen b.known j) v) slot
        (drop_losing_of slot kept' b).waiting
        (Invariant.drop_losing-IsValid slot (is_losing kept') b.waiting v).0.sorted
        (drop_losing-IsUnsettledBut slot b kept' v.sorted u)
  settle_time-IsUnsettled slot b kept' (some given_up) v k e u =
      Entries.Entries-give_up (λ j v. All (IsOpen b.known j) v) slot
        (drop_losing_of slot kept' b).waiting
        (Invariant.drop_losing-IsValid slot (is_losing kept') b.waiting v).0.sorted
        (drop_losing-IsUnsettledBut slot b kept' v.sorted u)
  settle_time-IsUnsettled slot b kept' none v k e u =
      Entries.Entries-observe (λ j v. All (IsOpen b.known j) v) slot _
        (Entries.Entries-drop_losing (IsOpen b.known) slot (is_losing kept') b.waiting v.sorted
          (λ p admitted. settlement-eq-pending b.known slot kept' p.bank k e (ground arith)) u)

  settle_kept-IsUnsettled :
      (slot : ℕ) (b : SlotTimestampBuffer T) (o : Option Bank)
      → Invariant.IsValid b.waiting
      → kept b.known slot ≡ o
      → IsUnsettledBut slot b
      → IsUnsettled (settle_kept slot b o).0
  unfolding settle_kept
  settle_kept-IsUnsettled slot b none v k u =
      Entries.Entries-observe (λ j v. All (IsOpen b.known j) v) slot b.waiting
        (All-weaken _ _
          (λ e h. elim (ℕ_discrete e.0 slot) [
            | yes p ↦ rw p (All-any e.1 (λ x. settlement_unkept b.known slot x.bank k))
            | no p ↦ h p
          ])
          b.waiting.pending u)
  settle_kept-IsUnsettled slot b (some bank) v k u =
      settle_time-IsUnsettled slot b bank (time b.known slot) v k refl u

  -- After the facts of one slot changed, the verdicts of the others are as open as they were.
  update-IsUnsettledBut :
      (slot : ℕ) (f : Facts → Facts) (b : SlotTimestampBuffer T)
      → SortedFrom 0 b.known.facts
      → IsUnsettled b
      → IsUnsettledBut slot (record b { known = update b.known slot f })
  update-IsUnsettledBut slot f b s u =
      All-weaken _ _
        (λ e h ne.
          All-weaken _ _ (λ x o. settlement-update_ne b.known slot e.0 x.bank f s ne o) e.1 h)
        b.waiting.pending u

  -- Whatever message comes, afterwards no payload waits for an answer that is already known.
  pub step-IsUnsettled :
      (b : SlotTimestampBuffer T) (c : Message T)
      → IsReady b
      → IsUnsettled b
      → IsUnsettled (step b c).0
  unfolding step settle resolve Known.give_up keep
  step-IsUnsettled b (Message.payload slot bank p) h u =
      take_payload-IsUnsettled slot bank p b (settlement b.known slot bank) refl u
  step-IsUnsettled b (Message.block_time slot bank t) h u =
      settle_kept-IsUnsettled slot (record b { known = resolve b.known slot bank t }) _
        h.waiting.valid refl (update-IsUnsettledBut slot (resolve_facts bank t) b h.known.sorted u)
  step-IsUnsettled b (Message.no_block_time slot bank) h u =
      settle_kept-IsUnsettled slot (record b { known = Known.give_up b.known slot bank }) _
        h.waiting.valid refl (update-IsUnsettledBut slot (give_up_facts bank) b h.known.sorted u)
  step-IsUnsettled b (Message.finalized slot bank) h u =
      settle_kept-IsUnsettled slot (record b { known = keep b.known slot bank }) _ h.waiting.valid
        refl (update-IsUnsettledBut slot (keep_facts bank) b h.known.sorted u)

  -- From a ready buffer in which every waiting payload has an open verdict, after any sequence of
  -- messages no payload waits for a verdict that the table already holds.
  pub run-IsUnsettled :
      (b : SlotTimestampBuffer T) (cs : List (Message T))
      → IsReady b
      → IsUnsettled b
      → IsUnsettled (run b cs).0
  unfolding run
  run-IsUnsettled b [] h u = u
  run-IsUnsettled b (c ∷ cs) h u =
      run-IsUnsettled (step b c).0 cs (run-Settles b (c ∷ []) h).0 (step-IsUnsettled b c h u)

  -- What `settle` ought to release, in the order of arrival: of what waits for the slot, the
  -- payloads of banks that the kept one admits, if its instant is known.
  abbrev pub due : Option Bank → Option SlotOutcome → List (Held T) → List (Resolved T)
  due none o hs = []
  due (some kept') none hs = []
  due (some kept') (some given_up) hs = []
  due (some kept') (some (at t)) hs = stamp t (retain (λ h. not (is_losing kept' h)) hs)

  settle_time-due :
      (slot : ℕ) (b : SlotTimestampBuffer T) (kept' : Bank) (o : Option SlotOutcome)
      → SortedFrom 0 b.waiting.pending
      → (settle_time slot (drop_losing_of slot kept' b) o).1
        ≡ due (some kept') o (waiting_for slot b.waiting)
  unfolding settle_time release
  settle_time-due slot b kept' none s = refl
  settle_time-due slot b kept' (some given_up) s = refl
  settle_time-due slot b kept' (some (at t)) s =
      ap (stamp t) (
        unfold waiting_for see in
        Entries.waiting_for-drop_losing slot (is_losing kept') b.waiting s)

  settle_kept-due :
      (slot : ℕ) (b : SlotTimestampBuffer T) (o : Option Bank)
      → SortedFrom 0 b.waiting.pending
      → (settle_kept slot b o).1 ≡ due o (time b.known slot) (waiting_for slot b.waiting)
  unfolding settle_kept
  settle_kept-due slot b none s = refl
  settle_kept-due slot b (some kept') s = settle_time-due slot b kept' (time b.known slot) s

  -- On a ready buffer, settle releases exactly the payloads that wait for the slot in a bank that
  -- the kept one admits, in the order of arrival and with the kept bank's instant, and nothing while
  -- the kept bank or its instant is not known or the bank was given up.
  pub settle-due :
      (slot : ℕ) (b : SlotTimestampBuffer T)
      → IsReady b
      → (settle slot b).1 ≡ due (kept b.known slot) (time b.known slot) (waiting_for slot b.waiting)
  unfolding settle
  settle-due slot b h = settle_kept-due slot b (kept b.known slot) h.waiting.valid.sorted
