-- ===== src/Grpc/Buffer/Waiting/Entries.antt =====
-- What each operation of crates/indexer/src/infra/grpc/slot_timestamp_buffer/waiting_slots.rs does to
-- a property of all that waits.
use yog_sothoth.Prelude.{
  ℕ, ◌≡◌, ◌≢◌, inl, inr, refl, Option, none, some, List, [], ◌∷◌, arith, All, All-append,
  All-retain, ==_refl, Option-cases, true, not, Bool, retain,
}
use yog_sothoth.Prelude.Map.{
  Map, get, get_or, SortedFrom, Entries, get-remove, get-insert, Entries-insert, Entries-remove,
  Entries-get, Entries-remove_key, Entries-insert_key, Entries-absent,
}
use yog_sothoth.Grpc.Buffer.Waiting.{
  WaitingSlots, EvictionReason, unresolvable, push, release, observe, drop_losing, see, take, evict,
  add, waiting_for, enforce_bounds, give_up, retained, put_back, reason,
}
use yog_sothoth.Grpc.Buffer.Waiting.Enforce.{pending-evict, evict_exceeding_rule}

module _ {ℓ} {T : Type ℓ} where
  module _ {κ} (P : ℕ → List T → Type κ) where
    -- Eviction only takes entries away.
    pub Entries-evict :
        (slot : ℕ) (why : EvictionReason) (w : WaitingSlots T)
        → Entries P w.pending
        → Entries P (evict slot why w).pending
    Entries-evict slot why w h = rw (pending-evict slot why w) (Entries-remove P slot w.pending h)

    pub Entries-enforce_bounds :
        (w : WaitingSlots T) → Entries P w.pending → Entries P (enforce_bounds w).pending
    unfolding enforce_bounds
    Entries-enforce_bounds w h =
        evict_exceeding_rule (λ u. Entries P u.pending)
          (λ u b k i _ _. Entries-evict k (reason b) u i) _ _ h

    pub Entries-observe :
        (slot : ℕ) (w : WaitingSlots T) → Entries P w.pending → Entries P (observe slot w).pending
    unfolding observe see
    Entries-observe slot w h = Entries-enforce_bounds (see slot w) h

    -- Once a slot's entry is gone, what held of the others holds of all.
    pub Entries-give_up :
        (slot : ℕ) (w : WaitingSlots T)
        → SortedFrom 0 w.pending
        → Entries (λ j v. j ≢ slot → P j v) w.pending
        → Entries P (give_up slot w).pending
    unfolding give_up see
    Entries-give_up slot w s h = Entries-enforce_bounds (evict slot unresolvable (see slot w)) (
        rw (pending-evict slot unresolvable (see slot w))
          (Entries-remove_key P 0 slot w.pending s h))

    pub Entries-release :
        (slot : ℕ) (w : WaitingSlots T)
        → SortedFrom 0 w.pending
        → Entries (λ j v. j ≢ slot → P j v) w.pending
        → Entries P (release slot w).0.pending
    unfolding release see take
    Entries-release slot w s h =
        Entries-enforce_bounds (take slot (see slot w)) (Entries-remove_key P 0 slot w.pending s h)

  drop_losing-pending :
      (slot : ℕ) (lost : T → Bool) (w : WaitingSlots T) (waiting : List T)
      → get slot w.pending ≡ some waiting
      → (drop_losing slot lost w).pending ≡ put_back slot (retained lost waiting) w.pending
  unfolding drop_losing
  drop_losing-pending slot lost w waiting e = ground arith

  put_back-All {κ} :
      (P : ℕ → T → Type κ) (slot : ℕ) (left : List T) (m : Map (List T))
      → SortedFrom 0 m
      → All (P slot) left
      → Entries (λ j v. j ≢ slot → All (P j) v) m
      → Entries (λ j v. All (P j) v) (put_back slot left m)
  put_back-All P slot [] m s l h = Entries-remove_key (λ j v. All (P j) v) 0 slot m s h
  put_back-All P slot (x ∷ xs) m s l h =
      Entries-insert_key (λ j v. All (P j) v) 0 slot (x ∷ xs) m s l h

  -- What is not dropped satisfies what its not being dropped gives.
  pub Entries-drop_losing {κ} :
      (P : ℕ → T → Type κ) (slot : ℕ) (lost : T → Bool) (w : WaitingSlots T)
      → SortedFrom 0 w.pending
      → ((p : T) → not (lost p) ≡ true → P slot p)
      → Entries (λ j v. j ≢ slot → All (P j) v) w.pending
      → Entries (λ j v. All (P j) v) (drop_losing slot lost w).pending
  Entries-drop_losing P slot lost w s kept h = elim (Option-cases (get slot w.pending)) [
    | inl e ↦
        unfold drop_losing in
        rw (e, drop_losing) (Entries-absent (λ j v. All (P j) v) slot w.pending e h)
    | inr (waiting, e) ↦ rw (drop_losing-pending slot lost w waiting e) (
        put_back-All P slot (retained lost waiting) w.pending s
          (All-retain (P slot) (λ p. not (lost p)) waiting kept) h)
  ]

  -- A payload that is pushed joins those of its slot.
  pub Entries-push {κ} :
      (P : ℕ → T → Type κ) (slot : ℕ) (p : T) (w : WaitingSlots T)
      → P slot p
      → Entries (λ j v. All (P j) v) w.pending
      → Entries (λ j v. All (P j) v) (push slot p w).pending
  unfolding push see add
  Entries-push P slot p w q h =
      Entries-enforce_bounds (λ j v. All (P j) v) (add slot p (see slot w))
        (Entries-insert (λ j v. All (P j) v) slot _ w.pending
          (All-append (P slot) (get_or [] (get slot w.pending)) (p ∷ [])
            (old (get slot w.pending) refl) (q, tt))
          h)
    where
      old : (o : Option (List T)) → get slot w.pending ≡ o → All (P slot) (get_or [] o)
      old none e = tt
      old (some v) e = Entries-get (λ j v. All (P j) v) slot v w.pending e h

  get-put_back :
      (slot : ℕ) (left : List T) (m : Map (List T))
      → SortedFrom 0 m
      → get_or [] (get slot (put_back slot left m)) ≡ left
  get-put_back slot [] m s = ground (arith, get-remove 0 slot slot m s, ==_refl slot)
  get-put_back slot (x ∷ xs) m s = ground (arith, get-insert slot slot (x ∷ xs) m, ==_refl slot)

  drop_losing_absent :
      (slot : ℕ) (lost : T → Bool) (w : WaitingSlots T)
      → get slot w.pending ≡ none
      → drop_losing slot lost w ≡ w
  unfolding drop_losing
  drop_losing_absent slot lost w e = rw (e, drop_losing)

  -- What still waits for the slot, in the same order.
  pub waiting_for-drop_losing :
      (slot : ℕ) (lost : T → Bool) (w : WaitingSlots T)
      → SortedFrom 0 w.pending
      → waiting_for slot (drop_losing slot lost w) ≡ retain (λ p. not (lost p)) (waiting_for slot w)
  unfolding waiting_for
  waiting_for-drop_losing slot lost w s = elim (Option-cases (get slot w.pending)) [
    | inl e ↦ rw (drop_losing_absent slot lost w e, e)
    | inr (waiting, e) ↦
        rw (drop_losing-pending slot lost w waiting e)
          (rw (get-put_back slot (retained lost waiting) w.pending s, e))
  ]
