-- ===== src/Grpc/Buffer/Waiting/Invariant.antt =====
-- What every state of crates/indexer/src/infra/grpc/slot_timestamp_buffer/waiting_slots.rs satisfies.
use yog_sothoth.Prelude.{
  Bool, ℕ, suc, ◌+◌, ◌-◌, ◌≤◌, ◌<◌, ◌≡◌, refl, inl, inr, Option, none, some, List, [], ◌∷◌, ◌++◌,
  arith, length, All-weaken, not, Option-cases, Bool-cases, length-append, length-retain-le,
}
use yog_sothoth.Prelude.Map.{
  Map, get, get_or, insert, remove, SortedFrom, SortedFrom-remove, SortedFrom-insert, get_below,
  Entries, Entries-get, Entries-insert, Entries-remove,
}
use yog_sothoth.Grpc.Buffer.Waiting.{
  WaitingSlots, BufferMetrics, EvictionReason, new, see, seen_head, take, waiting_for, evict, add,
  put_back, retained, is_empty, drop_losing, record_evicted, record_losing_bank,
}

abbrev pub KeyBehind : Option ℕ → ℕ → Type 0
KeyBehind none k = ⊥
KeyBehind (some head) k = k ≤ head

pub KeyBehind-seen :
    (slot : ℕ) (h : Option ℕ) (k : ℕ) → KeyBehind h k → KeyBehind (seen_head slot h) k
unfolding seen_head
KeyBehind-seen slot none k b = absurd b
KeyBehind-seen slot (some h) k b = omega arith

pub KeyBehind-self : (slot : ℕ) (h : Option ℕ) → KeyBehind (seen_head slot h) slot
unfolding seen_head
KeyBehind-self slot none = omega arith
KeyBehind-self slot (some h) = omega arith

-- The payloads dropped so far, as the process's counters tell.
abbrev pub lost : BufferMetrics → ℕ
lost m = m.evicted_slot_bound + m.evicted_payload_bound + m.evicted_unresolvable + m.losing_bank

lost-record_evicted :
    (n : ℕ) (why : EvictionReason) (m : BufferMetrics) → lost (record_evicted n why m) ≡ lost m + n
unfolding record_evicted
lost-record_evicted n EvictionReason.slot_bound m = omega arith
lost-record_evicted n EvictionReason.payload_bound m = omega arith
lost-record_evicted n EvictionReason.unresolvable m = omega arith

module _ {ℓ} {T : Type ℓ} where
  -- The payloads of all slots together.
  abbrev pub total : Map (List T) → ℕ
  total [] = 0
  total ((k, v) ∷ m) = length v + total m

  pub record IsValid (w : WaitingSlots T) : Type 0 where
    pub sorted : SortedFrom 0 w.pending
    pub nonempty : Entries (λ k v. 0 < length v) w.pending
    pub counted : w.count ≡ total w.pending
    pub behind : Entries (λ k v. KeyBehind w.head_slot k) w.pending

  pub total-remove :
      (k : ℕ) (m : Map (List T)) → total (remove k m) + length (get_or [] (get k m)) ≡ total m
  unfolding get remove
  total-remove k [] = omega arith
  total-remove k ((j, v) ∷ m) = ground (arith, total-remove k m)

  pub total-insert :
      (n k : ℕ) (v : List T) (m : Map (List T))
      → SortedFrom n m
      → total (insert k v m) + length (get_or [] (get k m)) ≡ total m + length v
  unfolding get insert
  total-insert n k v [] s = omega arith
  total-insert n k v ((j, w) ∷ m) s =
      ground (arith, total-insert (suc j) k v m s.1, get_below (suc j) k m s.1)

  pub new-IsValid : (s p : ℕ) (m : BufferMetrics) → IsValid (new s p m)
  unfolding new
  new-IsValid s p m = record { sorted = tt; nonempty = tt; counted = refl; behind = tt }

  pub see-IsValid : (slot : ℕ) (w : WaitingSlots T) → IsValid w → IsValid (see slot w)
  unfolding see
  see-IsValid slot w v = record {
    sorted = v.sorted;
    nonempty = v.nonempty;
    counted = v.counted;
    behind = All-weaken _ _ (λ e. KeyBehind-seen slot w.head_slot e.0) w.pending v.behind;
  }

  pub take-IsValid : (slot : ℕ) (w : WaitingSlots T) → IsValid w → IsValid (take slot w)
  unfolding take
  take-IsValid slot w v = record {
    sorted = SortedFrom-remove 0 slot w.pending v.sorted;
    nonempty = Entries-remove _ slot w.pending v.nonempty;
    counted = omega (arith, total-remove slot w.pending, v.counted);
    behind = Entries-remove _ slot w.pending v.behind;
  }

  pub evict-IsValid :
      (slot : ℕ) (why : EvictionReason) (w : WaitingSlots T)
      → IsValid w
      → IsValid (evict slot why w)
  unfolding evict
  evict-IsValid slot why w v =
      let t = take-IsValid slot w v in
      elim (Bool-cases (is_empty (waiting_for slot w))) [
        | inl e ↦ rw e t
        | inr e ↦ rw e (record {
          sorted = t.sorted;
          nonempty = t.nonempty;
          counted = t.counted;
          behind = t.behind;
        })
      ]

  -- Waiting or counted as dropped.
  abbrev pub ledger : WaitingSlots T → ℕ
  ledger w = w.count + lost w.metrics

  pub ledger-evict :
      (slot : ℕ) (why : EvictionReason) (w : WaitingSlots T)
      → IsValid w
      → ledger (evict slot why w) ≡ ledger w
  unfolding evict
  ledger-evict slot why w v =
      let n = waiting_for slot w in
      ground (
        arith,
        lost-record_evicted (length n) why w.metrics,
        total-remove slot w.pending,
        v.counted,
      )

  pub add-IsValid :
      (slot : ℕ) (payload : T) (w : WaitingSlots T)
      → KeyBehind w.head_slot slot
      → IsValid w
      → IsValid (add slot payload w)
  unfolding add
  add-IsValid slot payload w b v =
      let old = get_or [] (get slot w.pending) in
      record {
        sorted = SortedFrom-insert 0 slot _ w.pending (omega arith) v.sorted;
        nonempty =
            Entries-insert _ slot _ w.pending (omega (arith, length-append old (payload ∷ [])))
              v.nonempty;
        counted = omega (
          arith,
          v.counted,
          length-append old (payload ∷ []),
          total-insert 0 slot (old ++ payload ∷ []) w.pending v.sorted,
        );
        behind = Entries-insert _ slot _ w.pending b v.behind;
      }

  total-put_back :
      (slot : ℕ) (waiting left : List T) (m : Map (List T))
      → get slot m ≡ some waiting
      → SortedFrom 0 m
      → total (put_back slot left m) + length waiting ≡ total m + length left
  total-put_back slot waiting [] m e s = omega (arith, total-remove slot m, held e)
    where
      held : get slot m ≡ some waiting → length (get_or [] (get slot m)) ≡ length waiting
      held e = rw e
  total-put_back slot waiting (x ∷ xs) m e s =
      omega (arith, total-insert 0 slot (x ∷ xs) m s, held e)
    where
      held : get slot m ≡ some waiting → length (get_or [] (get slot m)) ≡ length waiting
      held e = rw e

  Entries-put_back {κ} :
      (P : ℕ → List T → Type κ) (slot : ℕ) (left : List T) (m : Map (List T))
      → (0 < length left → P slot left)
      → Entries P m
      → Entries P (put_back slot left m)
  Entries-put_back P slot [] m p h = Entries-remove P slot m h
  Entries-put_back P slot (x ∷ xs) m p h = Entries-insert P slot (x ∷ xs) m (p (omega arith)) h

  SortedFrom-put_back :
      (slot : ℕ) (left : List T) (m : Map (List T))
      → SortedFrom 0 m
      → SortedFrom 0 (put_back slot left m)
  SortedFrom-put_back slot [] m s = SortedFrom-remove 0 slot m s
  SortedFrom-put_back slot (x ∷ xs) m s = SortedFrom-insert 0 slot (x ∷ xs) m (omega arith) s

  put_back-IsValid :
      (slot : ℕ) (waiting left : List T) (w : WaitingSlots T) (n : ℕ) (metrics' : BufferMetrics)
      → IsValid w
      → get slot w.pending ≡ some waiting
      → length left + n ≡ length waiting
      → IsValid (record w {
        pending = put_back slot left w.pending;
        count = w.count - n;
        metrics = metrics';
      })
  put_back-IsValid slot waiting left w n metrics' v e h = record {
    sorted = SortedFrom-put_back slot left w.pending v.sorted;
    nonempty = Entries-put_back _ slot left w.pending (λ p. p) v.nonempty;
    counted = omega (arith, v.counted, total-put_back slot waiting left w.pending e v.sorted);
    behind =
        Entries-put_back _ slot left w.pending
          (λ _. Entries-get (λ k _. KeyBehind w.head_slot k) slot waiting w.pending e v.behind)
          v.behind;
  }

  -- What `drop_losing` does to a slot with payloads, on either outcome of its second test.
  drop_losing_eq :
      (slot : ℕ) (is_losing : T → Bool) (w : WaitingSlots T) (waiting : List T)
      → get slot w.pending ≡ some waiting
      → (n : ℕ) × (length (retained is_losing waiting) + n ≡ length waiting)
        × (drop_losing slot is_losing w ≡ record w {
          pending = put_back slot (retained is_losing waiting) w.pending;
          count = w.count - n;
          metrics = record_losing_bank n w.metrics;
        })
  unfolding drop_losing record_losing_bank
  drop_losing_eq slot is_losing w waiting e =
      let le = length-retain-le (λ p. not (is_losing p)) waiting in
      (
        length waiting - length (retained is_losing waiting),
        omega (arith, le),
        rw (e, drop_losing) (ground (arith, le)),
      )

  pub drop_losing-IsValid :
      (slot : ℕ) (is_losing : T → Bool) (w : WaitingSlots T)
      → IsValid w
      → IsValid (drop_losing slot is_losing w) × (ledger (drop_losing slot is_losing w) ≡ ledger w)
  drop_losing-IsValid slot is_losing w v = elim (Option-cases (get slot w.pending)) [
    | inl e ↦ unfold drop_losing in rw (e, drop_losing) (v, refl)
    | inr (waiting, e) ↦
        let (n, size, eq) = drop_losing_eq slot is_losing w waiting e in
        let left = retained is_losing waiting in
        let moved = total-put_back slot waiting left w.pending e v.sorted in
        rw eq (
          put_back-IsValid slot waiting left w n (record_losing_bank n w.metrics) v e size,
          unfold record_losing_bank in omega (arith, moved, v.counted),
        )
  ]
