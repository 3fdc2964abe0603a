-- ===== src/Grpc/Buffer/Sound.antt =====
-- The state of the buffer of crates/indexer/src/infra/grpc/slot_timestamp_buffer.rs, and its payloads,
-- from one message to the next.
use yog_sothoth.Prelude.{
  ℕ, ◌+◌, ◌≡◌, ◌∙◌, ap, length-append, Option, none, some, List, [], ◌∷◌, arith, length, length-map,
}
use yog_sothoth.Grpc.Buffer.Banks.{Bank}
use yog_sothoth.Grpc.Buffer.Known.{
  KnownSlots, Instant, SlotOutcome, at, given_up, Settlement, pending, losing, settled, settlement,
  kept, time, resolve, keep, resolve_facts, give_up_facts, keep_facts,
}
use yog_sothoth.Grpc.Buffer.Known
use yog_sothoth.Grpc.Buffer.Known.Bounds
use yog_sothoth.Grpc.Buffer.Waiting.{
  WaitingSlots, BufferMetrics, EvictionReason, record_evicted, record_losing_bank, unresolvable,
  push, release, observe, drop_losing, oldest, see, take, evict, add, waiting_for, lag,
  enforce_bounds, give_up,
}
use yog_sothoth.Grpc.Buffer.Waiting
use yog_sothoth.Prelude.Map.{first}
use yog_sothoth.Grpc.Buffer.Waiting.Invariant
use yog_sothoth.Grpc.Buffer.Waiting.Invariant.{ledger}
use yog_sothoth.Grpc.Buffer.Waiting.Enforce.{IsSound, enforce_bounds-IsSound, ledger-enforce_bounds}
use yog_sothoth.Grpc.Buffer.{
  Resolved, SlotTimestampBuffer, settle, take_payload, settle_time, settle_kept, is_losing,
  drop_losing_of, with_bounds,
}
use yog_sothoth.Grpc.Buffer.Run.{
  Message, payload, block_time, no_block_time, finalized, to_list, step, run,
}

module _ {ℓ} {T : Type ℓ} where
  -- An operation on the waiting slots that ends sound and enters `gain` payloads in the books.
  pub record Books (gain : ℕ) (w u : WaitingSlots T) : Type 0 where
    pub sound : IsSound u
    pub balance : ledger u ≡ ledger w + gain

  Books-enforce_bounds :
      (gain : ℕ) (w u : WaitingSlots T)
      → Invariant.IsValid u
      → ledger u ≡ ledger w + gain
      → Books gain w (enforce_bounds u)
  Books-enforce_bounds gain w u v e = record {
    sound = enforce_bounds-IsSound u v;
    balance = ledger-enforce_bounds u v ∙ e;
  }

  pub push-Books :
      (slot : ℕ) (p : T) (w : WaitingSlots T) → Invariant.IsValid w → Books 1 w (push slot p w)
  unfolding push see add
  push-Books slot p w v =
      let seen = Invariant.see-IsValid slot w v in
      let behind = Invariant.KeyBehind-self slot w.head_slot in
      Books-enforce_bounds 1 w _ (Invariant.add-IsValid slot p (see slot w) behind seen)
        (omega arith)

  pub observe-Books :
      (slot : ℕ) (w : WaitingSlots T) → Invariant.IsValid w → Books 0 w (observe slot w)
  unfolding observe see
  observe-Books slot w v = Books-enforce_bounds 0 w _ (Invariant.see-IsValid slot w v) (omega arith)

  pub give_up-Books :
      (slot : ℕ) (w : WaitingSlots T) → Invariant.IsValid w → Books 0 w (give_up slot w)
  unfolding give_up
  give_up-Books slot w v =
      let seen = Invariant.see-IsValid slot w v in
      Books-enforce_bounds 0 w _ (Invariant.evict-IsValid slot unresolvable (see slot w) seen)
        (Invariant.ledger-evict slot unresolvable (see slot w) seen ∙ unfold see in omega arith)

  -- What is released leaves the books.
  pub release-Books :
      (slot : ℕ) (w : WaitingSlots T)
      → Invariant.IsValid w
      → IsSound (release slot w).0
        × (ledger (release slot w).0 + length (release slot w).1 ≡ ledger w)
  unfolding release see take waiting_for
  release-Books slot w v =
      let seen = Invariant.see-IsValid slot w v in
      let taken = Invariant.take-IsValid slot (see slot w) seen in
      (
        enforce_bounds-IsSound (take slot (see slot w)) taken,
        omega (
          arith,
          ledger-enforce_bounds (take slot (see slot w)) taken,
          Invariant.total-remove slot w.pending,
          v.counted,
        ),
      )

  IsSound-recount :
      (w : WaitingSlots T) (m : BufferMetrics) → IsSound w → IsSound (record w { metrics = m })
  IsSound-recount w m h = record {
    valid = record {
      sorted = h.valid.sorted;
      nonempty = h.valid.nonempty;
      counted = h.valid.counted;
      behind = h.valid.behind;
    };
    within = record { window = h.within.window; room = h.within.room };
  }

module _ {ℓ} {T : Type ℓ} where
  -- The buffer is well formed and within its three bounds.
  pub record IsReady (b : SlotTimestampBuffer T) : Type 0 where
    pub waiting : IsSound b.waiting
    pub known : Bounds.IsValid b.known

  -- Payloads that wait or were counted as dropped.
  abbrev pub accounted : SlotTimestampBuffer T → ℕ
  accounted b = ledger b.waiting

  pub with_bounds-IsReady :
      (slots payloads facts : ℕ) (m : BufferMetrics) → IsReady (with_bounds slots payloads facts m)
  unfolding with_bounds Known.new Waiting.new first lag
  with_bounds-IsReady slots payloads facts m = record {
    waiting = record {
      valid = Invariant.new-IsValid slots payloads m;
      within = record { window = omega arith; room = omega arith };
    };
    known = record { sorted = tt; bounded = omega arith };
  }

  take_payload-IsReady :
      (slot : ℕ) (bank : Bank) (p : T) (b : SlotTimestampBuffer T) (s : Settlement)
      → IsReady b
      → let r = take_payload slot bank p b s in
        IsReady r.0 × (accounted r.0 + length (to_list r.1) ≡ accounted b + 1)
  unfolding take_payload record_evicted record_losing_bank
  take_payload-IsReady slot bank p b (settled (at t)) h = (h, omega arith)
  take_payload-IsReady slot bank p b (settled given_up) h =
      (record { waiting = IsSound-recount b.waiting _ h.waiting; known = h.known }, omega arith)
  take_payload-IsReady slot bank p b losing h =
      (record { waiting = IsSound-recount b.waiting _ h.waiting; known = h.known }, omega arith)
  take_payload-IsReady slot bank p b pending h =
      let books = push-Books slot (record { bank = bank; held = p }) b.waiting h.waiting.valid in
      (record { waiting = books.sound; known = h.known }, omega (arith, books.balance))

  -- The outcome of an operation that took in `taken` payloads.
  abbrev pub Settles :
      ℕ → SlotTimestampBuffer T → SlotTimestampBuffer T × List (Resolved T) → Type 0
  Settles taken b r = IsReady r.0 × (accounted r.0 + length r.1 ≡ accounted b + taken)

  settle_time-Settles :
      (slot : ℕ) (b : SlotTimestampBuffer T) (o : Option SlotOutcome)
      → Invariant.IsValid b.waiting
      → Bounds.IsValid b.known
      → Settles 0 b (settle_time slot b o)
  unfolding settle_time
  settle_time-Settles slot b (some (at t)) v k =
      let (sound, balance) = release-Books slot b.waiting v in
      (
        record { waiting = sound; known = k },
        omega (
          arith,
          balance,
          length-map {B = Resolved T} (λ x. record { payload = x.held; at_instant = t })
              (release slot b.waiting).1,
        ),
      )
  settle_time-Settles slot b (some given_up) v k =
      let books = give_up-Books slot b.waiting v in
      (record { waiting = books.sound; known = k }, omega (arith, books.balance))
  settle_time-Settles slot b none v k =
      let books = observe-Books slot b.waiting v in
      (record { waiting = books.sound; known = k }, omega (arith, books.balance))

  settle_kept-Settles :
      (slot : ℕ) (b : SlotTimestampBuffer T) (o : Option Bank)
      → Invariant.IsValid b.waiting
      → Bounds.IsValid b.known
      → Settles 0 b (settle_kept slot b o)
  unfolding settle_kept
  settle_kept-Settles slot b none v k =
      let books = observe-Books slot b.waiting v in
      (record { waiting = books.sound; known = k }, omega (arith, books.balance))
  settle_kept-Settles slot b (some bank) v k =
      let (valid, same) = Invariant.drop_losing-IsValid slot (is_losing bank) b.waiting v in
      let (ready, balance) =
        settle_time-Settles slot (drop_losing_of slot bank b) (time b.known slot) valid k in
      (ready, balance ∙ ap (λ n. n + 0) same)

  settle-Settles :
      (slot : ℕ) (b : SlotTimestampBuffer T)
      → Invariant.IsValid b.waiting
      → Bounds.IsValid b.known
      → Settles 0 b (settle slot b)
  unfolding settle
  settle-Settles slot b v k = settle_kept-Settles slot b (kept b.known slot) v k

module _ {ℓ} {T : Type ℓ} where
  abbrev pub payloads_of : Message T → ℕ
  payloads_of (payload slot bank p) = 1
  payloads_of c = 0

  abbrev pub payloads_in : List (Message T) → ℕ
  payloads_in [] = 0
  payloads_in (c ∷ cs) = payloads_of c + payloads_in cs

  pub step-Settles :
      (b : SlotTimestampBuffer T) (c : Message T) → IsReady b → Settles (payloads_of c) b (step b c)
  unfolding step
  step-Settles b (payload slot bank p) h =
      take_payload-IsReady slot bank p b (settlement b.known slot bank) h
  step-Settles b (block_time slot bank t) h =
      settle-Settles slot (record b { known = resolve b.known slot bank t }) h.waiting.valid
        (Bounds.resolve-IsValid b.known slot bank t h.known)
  step-Settles b (no_block_time slot bank) h =
      settle-Settles slot (record b { known = Known.give_up b.known slot bank }) h.waiting.valid
        (Bounds.give_up-IsValid b.known slot bank h.known)
  step-Settles b (finalized slot bank) h =
      settle-Settles slot (record b { known = keep b.known slot bank }) h.waiting.valid
        (Bounds.keep-IsValid b.known slot bank h.known)

  -- From a ready buffer, after any sequence of messages, the buffer is well formed and within its
  -- bounds, and the payloads released, waiting and counted as dropped are together those that were
  -- accounted for or came in.
  pub run-Settles :
      (b : SlotTimestampBuffer T) (cs : List (Message T))
      → IsReady b
      → Settles (payloads_in cs) b (run b cs)
  unfolding run
  run-Settles b [] h = (h, omega arith)
  run-Settles b (c ∷ cs) h =
      let (ready, balance) = step-Settles b c h in
      let (ready', balance') = run-Settles (step b c).0 cs ready in
      (ready', omega (arith, balance, balance', length-append (step b c).1 (run (step b c).0 cs).1))
