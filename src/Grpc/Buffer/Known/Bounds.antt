-- ===== src/Grpc/Buffer/Known/Bounds.antt =====
-- The size of the table of
-- crates/indexer/src/infra/grpc/slot_timestamp_buffer/known_slots.rs.
use yog_sothoth.Prelude.{ℕ, suc, ◌≤◌, [], ◌∷◌, arith, length}
use yog_sothoth.Prelude.Map.{Map, SortedFrom, SortedFrom-mono, SortedFrom-insert}
use yog_sothoth.Grpc.Buffer.Known.{
  KnownSlots, Facts, trim, update, resolve, give_up, keep, Instant, resolve_facts, give_up_facts,
  keep_facts,
}
use yog_sothoth.Grpc.Buffer.Banks.{Bank}

pub record IsValid (k : KnownSlots) : Type 0 where
  pub sorted : SortedFrom 0 k.facts
  pub bounded : length k.facts ≤ k.max_known_slots

SortedFrom-trim : (n max : ℕ) (m : Map Facts) → SortedFrom n m → SortedFrom n (trim max m)
unfolding trim
SortedFrom-trim n max [] s = tt
SortedFrom-trim n max ((k, f) ∷ m) s =
    ground (arith, SortedFrom-trim (suc k) max m, SortedFrom-mono n (suc k) (trim max m))

length-trim : (max : ℕ) (m : Map Facts) → length (trim max m) ≤ max
unfolding trim
length-trim max [] = omega arith
length-trim max (e ∷ m) = ground (arith, length-trim max m)

pub update-IsValid :
    (k : KnownSlots) (slot : ℕ) (f : Facts → Facts) → IsValid k → IsValid (update k slot f)
unfolding update
update-IsValid k slot f v = record {
  sorted = SortedFrom-trim 0 _ _ (SortedFrom-insert 0 slot _ k.facts (omega arith) v.sorted);
  bounded = length-trim _ _;
}

pub resolve-IsValid :
    (k : KnownSlots) (slot : ℕ) (bank : Bank) (t : Instant)
    → IsValid k
    → IsValid (resolve k slot bank t)
unfolding resolve
resolve-IsValid k slot bank t = update-IsValid k slot (resolve_facts bank t)

pub give_up-IsValid :
    (k : KnownSlots) (slot : ℕ) (bank : Bank) → IsValid k → IsValid (give_up k slot bank)
unfolding give_up
give_up-IsValid k slot bank = update-IsValid k slot (give_up_facts bank)

pub keep-IsValid :
    (k : KnownSlots) (slot : ℕ) (bank : Bank) → IsValid k → IsValid (keep k slot bank)
unfolding keep
keep-IsValid k slot bank = update-IsValid k slot (keep_facts bank)
