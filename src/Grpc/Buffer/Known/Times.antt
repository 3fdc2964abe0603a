-- ===== src/Grpc/Buffer/Known/Times.antt =====
-- What an update of the table of crates/indexer/src/infra/grpc/slot_timestamp_buffer/known_slots.rs
-- does to the verdicts of the other slots, and what it remembers of its own.
use yog_sothoth.Prelude.{
  ℕ, suc, ◌+◌, ◌≤◌, ◌<◌, ◌≡◌, ◌≢◌, ◌⊎◌, inl, inr, refl, none, some, List, [], ◌∷◌, arith, length,
  ◌==◌, ltb, Bool-cases, true,
}
use yog_sothoth.Prelude.Map.{
  Map, get, get_or, insert, SortedFrom, SortedFrom-insert, get_below, get-insert, Entries,
}
use yog_sothoth.Grpc.Buffer.Banks.{Bank, admits, same_bank, same_bank_iff}
use yog_sothoth.Grpc.Buffer.Known.{
  KnownSlots, Facts, no_facts, trim, update, settlement, facts_settlement, facts_time, kept, time,
  pending, SlotOutcome, at, given_up, find_at, admitted, add_given_up, set_time, Instant,
  resolve_facts, give_up_facts, next_outcome, or_else,
}

-- Trimming forgets a slot or leaves it.
get-trim :
    (n max j : ℕ) (m : Map Facts)
    → SortedFrom n m
    → (get j (trim max m) ≡ none) ⊎ (get j (trim max m) ≡ get j m)
unfolding get trim
get-trim n max j [] s = inl refl
get-trim n max j ((k, f) ∷ m) s = elim (Bool-cases (ltb max (length ((k, f) ∷ m)))) [
  | inl e ↦ rw e (elim (get-trim (suc k) max j m s.1) [
    | inl e' ↦ inl e'
    | inr e' ↦ elim (Bool-cases (k == j)) [
      | inl t ↦ inl (rw e' (get_below (suc k) j m s.1 (ground arith)))
      | inr t ↦ inr (ground arith)
    ]
  ])
  | inr e ↦ inr (rw e)
]

-- A slot keeps its facts while fewer than `max` keys can stand above it.
length-le-span :
    (n hi : ℕ) (m : Map Facts)
    → n ≤ hi
    → SortedFrom n m
    → Entries (λ k _. k < hi) m
    → length m + n ≤ hi
length-le-span n hi [] h s b = omega arith
length-le-span n hi ((k, f) ∷ m) h s b =
    omega (arith, length-le-span (suc k) hi m (omega arith) s.1 b.1)

pub get-trim_near :
    (n hi max j : ℕ) (m : Map Facts)
    → SortedFrom n m
    → Entries (λ k _. k < hi) m
    → hi ≤ j + max
    → get j (trim max m) ≡ get j m
unfolding get trim
get-trim_near n hi max j [] s b h = refl
get-trim_near n hi max j ((k, f) ∷ m) s b h =
    ground
      (arith, length-le-span (suc k) hi m b.0 s.1 b.1, get-trim_near (suc k) hi max j m s.1 b.1 h)

-- Another slot's verdict stays open where it was open.
pub settlement-update_ne :
    (k : KnownSlots) (slot j : ℕ) (bank : Bank) (f : Facts → Facts)
    → SortedFrom 0 k.facts
    → j ≢ slot
    → settlement k j bank ≡ pending
    → settlement (update k slot f) j bank ≡ pending
unfolding settlement update
settlement-update_ne k slot j bank f s ne e = ground (
  arith,
  get-insert slot j (f (get_or no_facts (get slot k.facts))) k.facts,
  get-trim 0 k.max_known_slots j (insert slot (f (get_or no_facts (get slot k.facts))) k.facts)
      (SortedFrom-insert 0 slot (f (get_or no_facts (get slot k.facts))) k.facts (omega arith) s),
)

-- With no kept bank every verdict of the slot is open.
pub settlement_unkept :
    (k : KnownSlots) (slot : ℕ) (bank : Bank)
    → kept k slot ≡ none
    → settlement k slot bank ≡ pending
unfolding settlement kept facts_settlement
settlement_unkept k slot bank e = ground arith

-- So it is for a bank that the kept one admits, while the instant is not known.
pub settlement-eq-pending :
    (k : KnownSlots) (slot : ℕ) (b bank : Bank)
    → kept k slot ≡ some b
    → time k slot ≡ none
    → admits b bank ≡ true
    → settlement k slot bank ≡ pending
unfolding settlement kept time facts_settlement
settlement-eq-pending k slot b bank e t a = ground arith

pub Entries-trim {κ} :
    (P : ℕ → Facts → Type κ) (max : ℕ) (m : Map Facts) → Entries P m → Entries P (trim max m)
unfolding trim
Entries-trim P max [] h = tt
Entries-trim P max (e ∷ m) h = elim (Bool-cases (ltb max (length (e ∷ m)))) [
  | inl t ↦ rw t (Entries-trim P max m h.1)
  | inr t ↦ rw t h
]

-- A duplicate empty block-meta throws no instant away.
find_at-add_given_up :
    (kept bank : Bank) (ts : List (Bank × SlotOutcome))
    → find_at (admitted kept (add_given_up bank ts)) ≡ find_at (admitted kept ts)
unfolding find_at add_given_up
find_at-add_given_up kept bank [] = ground arith
find_at-add_given_up kept bank ((b, at t) ∷ ts) = ground (arith, find_at-add_given_up kept bank ts)
find_at-add_given_up kept bank ((b, given_up) ∷ ts) =
    ground (arith, find_at-add_given_up kept bank ts)

find_at-set_time :
    (kept bank : Bank) (t : Instant) (ts : List (Bank × SlotOutcome))
    → admits kept bank ≡ true
    → (t' : Instant) × (find_at (admitted kept (set_time bank (at t) ts)) ≡ some (at t'))
unfolding find_at set_time
find_at-set_time kept bank t [] a = (t, ground arith)
find_at-set_time kept bank t ((b, at t₀) ∷ ts) a =
    let (t', e) = find_at-set_time kept bank t ts a in
    elim (Bool-cases (same_bank b bank)) [
      | inl s ↦ (t, ground (arith, same_bank_iff b bank))
      | inr s ↦ elim (Bool-cases (admits kept b)) [
        | inl y ↦ (t₀, ground arith)
        | inr n ↦ (t', ground arith)
      ]
    ]
find_at-set_time kept bank t ((b, given_up) ∷ ts) a =
    let (t', e) = find_at-set_time kept bank t ts a in
    elim (Bool-cases (same_bank b bank)) [
      | inl s ↦ (t, ground (arith, same_bank_iff b bank))
      | inr s ↦ (t', ground arith)
    ]

find_at_of_time :
    (ts : List (Bank × SlotOutcome)) {t : Instant}
    → or_else (find_at ts) (next_outcome ts) ≡ some (at t)
    → find_at ts ≡ some (at t)
unfolding find_at next_outcome
find_at_of_time [] e = e
find_at_of_time ((b, at t₀) ∷ ts) e = e
find_at_of_time ((b, given_up) ∷ ts) e = ground arith

-- Where the kept bank has an instant, an empty block-meta for any bank leaves it that instant.
pub facts_time-give_up_facts :
    (f : Facts) (kept bank : Bank) {t : Instant}
    → facts_time f kept ≡ some (at t)
    → facts_time (give_up_facts bank f) kept ≡ some (at t)
unfolding facts_time give_up_facts
facts_time-give_up_facts f kept bank e =
    let found = find_at_of_time (admitted kept f.times) e in
    rw (find_at-add_given_up kept bank f.times, found)

-- A block time for a bank that the kept one admits gives the slot an instant, also after an empty
-- block-meta.
pub facts_time-resolve_facts :
    (f : Facts) (kept bank : Bank) (t : Instant)
    → admits kept bank ≡ true
    → (t' : Instant) × (facts_time (resolve_facts bank t f) kept ≡ some (at t'))
unfolding facts_time resolve_facts
facts_time-resolve_facts f kept bank t a =
    let (t', e) = find_at-set_time kept bank t f.times a in (t', rw e)
