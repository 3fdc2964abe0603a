-- ===== src/Grpc/Buffer/Waiting/Enforce.antt =====
-- The eviction loop of crates/indexer/src/infra/grpc/slot_timestamp_buffer/waiting_slots.rs: it ends
-- with both bounds kept, and what it leaves.
use yog_sothoth.Prelude.{
  ◌∙◌, ℕ, zero, suc, ◌≤◌, ◌<◌, ◌≡◌, ◌≢◌, refl, inl, inr, none, some, List, [], ◌∷◌, arith, length,
  Option-cases,
}
use yog_sothoth.Prelude.Map.{Map, get, remove, first, last, length-remove}
use yog_sothoth.Grpc.Buffer.Waiting.{
  WaitingSlots, EvictionReason, Bound, slots, payloads, evict, exceeded_bound, victim,
  evict_exceeding, enforce_bounds, oldest_lag, lag, record_peaks, reason,
}
use yog_sothoth.Grpc.Buffer.Waiting.Invariant.{IsValid, evict-IsValid, ledger-evict, ledger}

module _ {ℓ} {T : Type ℓ} where
  -- Both bounds hold.
  pub record IsWithin (w : WaitingSlots T) : Type 0 where
    pub window : lag (first w.pending) w.head_slot ≤ w.max_pending_slots
    pub room : w.count ≤ w.max_pending_payloads

  exceeded_bound-IsWithin : (w : WaitingSlots T) → exceeded_bound w ≡ none → IsWithin w
  unfolding exceeded_bound
  exceeded_bound-IsWithin w e = ground arith

  pub exceeded_bound-none : (w : WaitingSlots T) → IsWithin w → exceeded_bound w ≡ none
  unfolding exceeded_bound
  exceeded_bound-none w h = ground arith

  get-first : (m : Map (List T)) (k : ℕ) → first m ≡ some k → get k m ≢ none
  unfolding first get
  get-first [] k e = cc
  get-first ((j, v) ∷ m) k e = ground arith

  get-last : (m : Map (List T)) (k : ℕ) → last m ≡ some k → get k m ≢ none
  unfolding last get
  get-last [] k e = cc
  get-last ((j, v) ∷ []) k e = ground arith
  get-last ((j, v) ∷ x ∷ m) k e = ground (arith, get-last (x ∷ m) k e)

  -- The slot that is evicted is there.
  get-victim :
      (w : WaitingSlots T) (b : Bound) (k : ℕ) → victim w b ≡ some k → get k w.pending ≢ none
  unfolding victim
  get-victim w slots k e = get-first w.pending k e
  get-victim w payloads k e = get-last w.pending k e

  first-none : (m : Map (List T)) → first m ≡ none → m ≡ []
  unfolding first
  first-none [] e = refl
  first-none (x ∷ m) e = cc

  last-none : (m : Map (List T)) → last m ≡ none → m ≡ []
  unfolding last
  last-none [] e = refl
  last-none (x ∷ []) e = cc
  last-none (x ∷ y ∷ m) e = absurd (nonempty-cons (last-none (y ∷ m) e))
    where
      nonempty-cons : ◌≢◌ {A = Map (List T)} (y ∷ m) []
      nonempty-cons e = cc

  victim-none : (w : WaitingSlots T) (b : Bound) → victim w b ≡ none → w.pending ≡ []
  unfolding victim
  victim-none w slots e = first-none w.pending e
  victim-none w payloads e = last-none w.pending e

  exceeded_bound-empty : (w : WaitingSlots T) → IsValid w → w.pending ≡ [] → exceeded_bound w ≡ none
  unfolding exceeded_bound first
  exceeded_bound-empty w v e =
      let c : w.count ≡ 0 = (rw e at v.counted) in
      exceeded_bound-none w (record { window = rw e (omega arith); room = omega arith })

  pub pending-evict :
      (slot : ℕ) (why : EvictionReason) (w : WaitingSlots T)
      → (evict slot why w).pending ≡ remove slot w.pending
  unfolding evict
  pending-evict slot why w = ground arith

  length-evict :
      (w : WaitingSlots T) (b : Bound) (k : ℕ) (why : EvictionReason)
      → victim w b ≡ some k
      → suc (length (evict k why w).pending) ≡ length w.pending
  length-evict w b k why e =
      rw (pending-evict k why w) (length-remove k w.pending (get-victim w b k e))

  pub loop_done :
      (fuel : ℕ) (w : WaitingSlots T) → exceeded_bound w ≡ none → evict_exceeding fuel w ≡ w
  unfolding evict_exceeding
  loop_done zero w e = refl
  loop_done (suc fuel) w e = rw (e, evict_exceeding)

  loop_stuck :
      (fuel : ℕ) (w : WaitingSlots T) (b : Bound)
      → exceeded_bound w ≡ some b
      → victim w b ≡ none
      → evict_exceeding fuel w ≡ w
  unfolding evict_exceeding
  loop_stuck zero w b e f = refl
  loop_stuck (suc fuel) w b e f = rw (e, evict_exceeding) (rw f)

  loop_step :
      (fuel : ℕ) (w : WaitingSlots T) (b : Bound) (k : ℕ)
      → exceeded_bound w ≡ some b
      → victim w b ≡ some k
      → evict_exceeding (suc fuel) w ≡ evict_exceeding fuel (evict k (reason b) w)
  unfolding evict_exceeding
  loop_step fuel w b k e f = rw (e, evict_exceeding) (rw f)

  -- What one eviction keeps, the whole loop keeps.
  pub evict_exceeding_rule {κ} :
      (P : WaitingSlots T → Type κ)
      → ((w : WaitingSlots T) (b : Bound) (k : ℕ)
          → P w
          → exceeded_bound w ≡ some b
          → victim w b ≡ some k
          → P (evict k (reason b) w))
      → (fuel : ℕ) (w : WaitingSlots T) → P w
      → P (evict_exceeding fuel w)
  evict_exceeding_rule P keep zero w p = unfold evict_exceeding in p
  evict_exceeding_rule P keep (suc fuel) w p = elim (Option-cases (exceeded_bound w)) [
    | inl e ↦ rw (loop_done (suc fuel) w e) p
    | inr (b, e) ↦ elim (Option-cases (victim w b)) [
      | inl f ↦ rw (loop_stuck (suc fuel) w b e f) p
      | inr (k, f) ↦
          rw (loop_step fuel w b k e f)
            (evict_exceeding_rule P keep fuel (evict k (reason b) w) (keep w b k p e f))
    ]
  ]

  -- With more fuel than slots the loop ends because no bound is exceeded.
  pub evict_exceeding_ends :
      (fuel : ℕ) (w : WaitingSlots T)
      → length w.pending < fuel
      → IsValid w
      → exceeded_bound (evict_exceeding fuel w) ≡ none
  evict_exceeding_ends zero w h v = absurd (omega arith)
  evict_exceeding_ends (suc fuel) w h v = elim (Option-cases (exceeded_bound w)) [
    | inl e ↦ rw (loop_done (suc fuel) w e) e
    | inr (b, e) ↦ elim (Option-cases (victim w b)) [
      | inl f ↦ rw (loop_stuck (suc fuel) w b e f) (exceeded_bound-empty w v (victim-none w b f))
      | inr (k, f) ↦ rw (loop_step fuel w b k e f) (
          evict_exceeding_ends fuel (evict k (reason b) w)
            (omega (arith, length-evict w b k (reason b) f)) (evict-IsValid k (reason b) w v))
    ]
  ]

  peaked : WaitingSlots T → WaitingSlots T
  peaked w = record w { metrics = record_peaks w.count (oldest_lag w) w.metrics }

  peaked-IsValid : (w : WaitingSlots T) → IsValid w → IsValid (peaked w)
  unfolding peaked
  peaked-IsValid w v = record {
    sorted = v.sorted;
    nonempty = v.nonempty;
    counted = v.counted;
    behind = v.behind;
  }

  ledger-peaked : (w : WaitingSlots T) → ledger (peaked w) ≡ ledger w
  unfolding peaked record_peaks
  ledger-peaked w = refl

  -- What holds after every operation.
  pub record IsSound (w : WaitingSlots T) : Type 0 where
    pub valid : IsValid w
    pub within : IsWithin w

  pub enforce_bounds-IsSound : (w : WaitingSlots T) → IsValid w → IsSound (enforce_bounds w)
  unfolding enforce_bounds peaked
  enforce_bounds-IsSound w v =
      let v' = peaked-IsValid w v in
      record {
        valid = evict_exceeding_rule IsValid (λ u b k i _ _. evict-IsValid k (reason b) u i) _ _ v';
        within = exceeded_bound-IsWithin _ (evict_exceeding_ends _ _ (omega arith) v');
      }

  pub ledger-enforce_bounds :
      (w : WaitingSlots T) → IsValid w → ledger (enforce_bounds w) ≡ ledger w
  unfolding enforce_bounds peaked
  ledger-enforce_bounds w v =
      (evict_exceeding_rule (λ u. IsValid u × (ledger u ≡ ledger w))
        (λ u b k i _ _. (evict-IsValid k (reason b) u i.0, ledger-evict k (reason b) u i.0 ∙ i.1)) _
        _ (peaked-IsValid w v, ledger-peaked w)).1

  -- Neither the head nor the bounds move.
  pub record IsSameStream (w u : WaitingSlots T) : Type 0 where
    pub head : u.head_slot ≡ w.head_slot
    pub slots : u.max_pending_slots ≡ w.max_pending_slots
    pub payloads : u.max_pending_payloads ≡ w.max_pending_payloads

  pub evict-IsSameStream :
      (slot : ℕ) (why : EvictionReason) (w u : WaitingSlots T)
      → IsSameStream w u
      → IsSameStream w (evict slot why u)
  unfolding evict
  evict-IsSameStream slot why w u h = ground arith

  pub enforce_bounds-IsSameStream : (w : WaitingSlots T) → IsSameStream w (enforce_bounds w)
  unfolding enforce_bounds
  enforce_bounds-IsSameStream w =
      evict_exceeding_rule (IsSameStream w) (λ u b k h _ _. evict-IsSameStream k (reason b) w u h) _
        _ (record { head = refl; slots = refl; payloads = refl })
