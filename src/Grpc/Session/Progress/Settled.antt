-- ===== src/Grpc/Session/Progress/Settled.antt =====
-- The slots settled by crates/indexer/src/infra/grpc/session/slot_progress.rs.
use yog_sothoth.Prelude.{ℕ, suc, ◌-◌, ◌≤◌, ◌≡◌, ◌≢◌, refl, Option, none, some, [], ◌∷◌, arith}
use yog_sothoth.Prelude.Map.{Map, get, first, SortedFrom, get_below}
use yog_sothoth.Grpc.Buffer.Waiting.{oldest}
use yog_sothoth.Grpc.Buffer.{oldest_pending_slot}
use yog_sothoth.Grpc.Buffer.Sound.{IsReady}
use yog_sothoth.Grpc.Session.Progress.{SlotProgress, settled_below, held_back_slots, below, or_else}

first-le :
    {V : Type 0} (n j : ℕ) (m : Map V)
    → SortedFrom n m
    → get j m ≢ none
    → (k : ℕ) × (first m ≡ some k) × (k ≤ j)
unfolding first get
first-le n j [] s h = absurd (h refl)
first-le n j ((k, v) ∷ m) s h = (k, refl, ground (arith, get_below (suc k) j m))

below_first :
    {o : Option ℕ} {k j s : ℕ} (h : Option ℕ)
    → o ≡ some k
    → k ≤ j
    → below (or_else o h) ≡ some s
    → s ≤ j - held_back_slots
below_first h f le e = ground arith

-- On a ready buffer, what is settled is at most any slot that still waits, less the margin of two
-- slots.
pub settled_below-le :
    {M : Type 0} (p : SlotProgress M) (j : ℕ) {s : ℕ}
    → IsReady p.buffer
    → settled_below p ≡ some s
    → get j p.buffer.waiting.pending ≢ none
    → s ≤ j - held_back_slots
unfolding settled_below oldest_pending_slot oldest
settled_below-le p j r e h =
    let (k, f, le) = first-le 0 j p.buffer.waiting.pending r.waiting.valid.sorted h in
    below_first p.highest_meta_slot f le e
