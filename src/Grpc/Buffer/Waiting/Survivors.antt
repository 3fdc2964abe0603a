-- ===== src/Grpc/Buffer/Waiting/Survivors.antt =====
-- Which slots the eviction loop of
-- crates/indexer/src/infra/grpc/slot_timestamp_buffer/waiting_slots.rs leaves, against a plain
-- description: first the slots out of the window go, then the newest ones.
use yog_sothoth.Prelude.{
  ℕ, suc, ◌-◌, ◌≤◌, ◌<◌, ◌≡◌, ◌∙◌, refl, sym, Option, some, List, [], ◌∷◌, arith, length, ltb, leb,
  if◌then◌else◌,
}
use yog_sothoth.Prelude.Map.{Map, remove, first, last, SortedFrom}
use yog_sothoth.Grpc.Buffer.Waiting.{
  WaitingSlots, Bound, slots, payloads, evict, exceeded_bound, victim, enforce_bounds, lag, reason,
}
use yog_sothoth.Grpc.Buffer.Waiting.Invariant.{IsValid, total, evict-IsValid}
use yog_sothoth.Grpc.Buffer.Waiting.Enforce.{
  IsWithin, pending-evict, evict_exceeding_rule, enforce_bounds-IsSound, evict-IsSameStream,
}

module _ {ℓ} {T : Type ℓ} where
  -- The slots that trail the head by at most `window`.
  unfoldable pub drop_stale : ℕ → Option ℕ → Map (List T) → Map (List T)
  drop_stale window head [] = []
  drop_stale window head ((k, v) ∷ m) =
      if ltb window (lag (some k) head) then drop_stale window head m else (k, v) ∷ m

  -- The oldest slots, as many as together hold at most `room` payloads.
  unfoldable pub fitting : ℕ → Map (List T) → Map (List T)
  fitting room [] = []
  fitting room ((k, v) ∷ m) =
      if leb (length v) room then (k, v) ∷ fitting (room - length v) m else []

  abbrev pub survivors : WaitingSlots T → Map (List T)
  survivors w =
      fitting w.max_pending_payloads (drop_stale w.max_pending_slots w.head_slot w.pending)

  last-ge : (n k : ℕ) (m : Map (List T)) → SortedFrom n m → last m ≡ some k → n ≤ k
  unfolding last
  last-ge n k [] s e = cc
  last-ge n k ((j, v) ∷ []) s e = ground arith
  last-ge n k ((j, v) ∷ x ∷ m) s e = omega (arith, last-ge (suc j) k (x ∷ m) s.1 e)

  fitting_all : (room : ℕ) (m : Map (List T)) → total m ≤ room → fitting room m ≡ m
  unfolding fitting
  fitting_all room [] h = refl
  fitting_all room ((k, v) ∷ m) h = ground (arith, fitting_all (room - length v) m)

  -- The last slot is none of those that fit, where not all do.
  fitting-remove-last :
      (n room k : ℕ) (m : Map (List T))
      → SortedFrom n m
      → last m ≡ some k
      → room < total m
      → fitting room (remove k m) ≡ fitting room m
  unfolding fitting remove last
  fitting-remove-last n room k [] s e h = cc
  fitting-remove-last n room k ((j, v) ∷ []) s e h = ground arith
  fitting-remove-last n room k ((j, v) ∷ x ∷ m) s e h = ground (
    arith,
    last-ge (suc j) k (x ∷ m) s.1 e,
    fitting-remove-last (suc j) (room - length v) k (x ∷ m) s.1 e,
  )

  drop_stale_none :
      (window : ℕ) (head : Option ℕ) (m : Map (List T))
      → lag (first m) head ≤ window
      → drop_stale window head m ≡ m
  unfolding drop_stale first
  drop_stale_none window head [] h = refl
  drop_stale_none window head ((k, v) ∷ m) h = ground arith

  drop_stale-remove-first :
      (window k : ℕ) (head : Option ℕ) (m : Map (List T))
      → first m ≡ some k
      → window < lag (first m) head
      → drop_stale window head (remove k m) ≡ drop_stale window head m
  unfolding drop_stale first remove
  drop_stale-remove-first window k head [] e h = cc
  drop_stale-remove-first window k head ((j, v) ∷ m) e h = ground arith

  lag-remove-last :
      (n window k : ℕ) (head : Option ℕ) (m : Map (List T))
      → SortedFrom n m
      → last m ≡ some k
      → lag (first m) head ≤ window
      → lag (first (remove k m)) head ≤ window
  unfolding first last remove lag
  lag-remove-last n window k head [] s e h = h
  lag-remove-last n window k head ((j, v) ∷ []) s e h = ground arith
  lag-remove-last n window k head ((j, v) ∷ x ∷ m) s e h =
      ground (arith, last-ge (suc j) k (x ∷ m) s.1 e)

  out_of_window :
      (w : WaitingSlots T)
      → exceeded_bound w ≡ some slots
      → w.max_pending_slots < lag (first w.pending) w.head_slot
  unfolding exceeded_bound
  out_of_window w e = ground arith

  too_many :
      (w : WaitingSlots T)
      → exceeded_bound w ≡ some payloads
      → (lag (first w.pending) w.head_slot ≤ w.max_pending_slots)
        × (w.max_pending_payloads < w.count)
  unfolding exceeded_bound
  too_many w e = ground arith

  survivors-remove :
      (w : WaitingSlots T) (b : Bound) (k : ℕ)
      → IsValid w
      → exceeded_bound w ≡ some b
      → victim w b ≡ some k
      → survivors (record w { pending = remove k w.pending }) ≡ survivors w
  unfolding victim
  survivors-remove w slots k v e f =
      rw (drop_stale-remove-first w.max_pending_slots k w.head_slot w.pending f (out_of_window w e))
  survivors-remove w payloads k v e f =
      let (near, many) = too_many w e in
      let near' = lag-remove-last 0 w.max_pending_slots k w.head_slot w.pending v.sorted f near in
      rw
        (
          drop_stale_none w.max_pending_slots w.head_slot (remove k w.pending) near',
          drop_stale_none w.max_pending_slots w.head_slot w.pending near,
        )
        (fitting-remove-last 0 w.max_pending_payloads k w.pending v.sorted f
          (omega (arith, v.counted)))

  -- One eviction leaves the survivors as they were.
  survivors-evict :
      (w : WaitingSlots T) (b : Bound) (k : ℕ)
      → IsValid w
      → exceeded_bound w ≡ some b
      → victim w b ≡ some k
      → survivors (evict k (reason b) w) ≡ survivors w
  survivors-evict w b k v e f =
      let same =
        evict-IsSameStream k (reason b) w w
          (record { head = refl; slots = refl; payloads = refl }) in
      rw (same.head, same.slots, same.payloads, pending-evict k (reason b) w)
        (survivors-remove w b k v e f)

  survivors_within : (w : WaitingSlots T) → IsValid w → IsWithin w → survivors w ≡ w.pending
  survivors_within w v h =
      rw (drop_stale_none w.max_pending_slots w.head_slot w.pending h.window)
        (fitting_all w.max_pending_payloads w.pending (omega (arith, v.counted, h.room)))

  -- On well-formed waiting slots, the eviction loop leaves the slots that trail the head by at most
  -- the window, and of those the oldest ones, as many as together hold no more payloads than the
  -- bound.
  pub pending-enforce_bounds :
      (w : WaitingSlots T) → IsValid w → (enforce_bounds w).pending ≡ survivors w
  unfolding enforce_bounds
  pending-enforce_bounds w v =
      let sound = enforce_bounds-IsSound w v in
      sym (survivors_within (enforce_bounds w) sound.valid sound.within)
      ∙ (evict_exceeding_rule (λ u. IsValid u × (survivors u ≡ survivors w))
          (λ u b k i e f. (evict-IsValid k (reason b) u i.0, survivors-evict u b k i.0 e f ∙ i.1)) _
          _
          (
            record {
              sorted = v.sorted;
              nonempty = v.nonempty;
              counted = v.counted;
              behind = v.behind;
            },
            refl,
          )).1
