-- ===== src/Grpc/Buffer/Known.antt =====
-- crates/indexer/src/infra/grpc/slot_timestamp_buffer/known_slots.rs: what is known of each slot.
-- An instant (`DateTime<Utc>`) is a number, only passed on and compared.
pub mod Bounds
pub mod Times
use yog_sothoth.Prelude.{ℕ, Option, none, some, List, [], ◌∷◌, ltb, if◌then◌else◌, length, retain}
use yog_sothoth.Prelude.Map.{Map, get, insert, get_or}
use yog_sothoth.Grpc.Buffer.Banks.{Bank, admits, same_bank}

abbrev pub Instant : Type 0
Instant = ℕ

pub data SlotOutcome : Type 0 where
  at : Instant → SlotOutcome
  given_up : SlotOutcome

pub data Settlement : Type 0 where
  pending : Settlement
  losing : Settlement
  settled : SlotOutcome → Settlement

pub record Facts : Type 0 where
  pub times : List (Bank × SlotOutcome)
  pub kept : Option Bank

-- `Facts::default()`.
abbrev pub no_facts : Facts
no_facts = record { times = []; kept = none }

-- `admitted().find(|outcome| matches!(outcome, SlotOutcome::At(_)))`.
unfoldable pub find_at : List (Bank × SlotOutcome) → Option SlotOutcome
find_at [] = none
find_at ((b, at t) ∷ rest) = some (at t)
find_at ((b, given_up) ∷ rest) = find_at rest

-- `admitted().next()`.
unfoldable pub next_outcome : List (Bank × SlotOutcome) → Option SlotOutcome
next_outcome [] = none
next_outcome ((b, o) ∷ rest) = some o

abbrev or_else : Option SlotOutcome → Option SlotOutcome → Option SlotOutcome
or_else none o = o
or_else (some o) o' = some o

abbrev pub admitted : Bank → List (Bank × SlotOutcome) → List (Bank × SlotOutcome)
admitted kept = retain (λ e. admits kept e.0)

-- `Facts::time`: a found instant before a given-up one.
unfoldable pub facts_time : Facts → Bank → Option SlotOutcome
unfolding find_at next_outcome
facts_time f kept = or_else (find_at (admitted kept f.times)) (next_outcome (admitted kept f.times))

pub record KnownSlots : Type 0 where
  pub facts : Map Facts
  pub max_known_slots : ℕ

unfoldable pub new : ℕ → KnownSlots
new max = record { facts = []; max_known_slots = max }

abbrev settle_outcome : Option SlotOutcome → Settlement
settle_outcome none = pending
settle_outcome (some o) = settled o

unfoldable pub facts_settlement : Facts → Bank → Settlement
facts_settlement f bank = elim f.kept [
  | none ↦ pending
  | some kept ↦ if admits kept bank then settle_outcome (facts_time f kept) else losing
]

unfoldable pub settlement : KnownSlots → ℕ → Bank → Settlement
unfolding facts_settlement
settlement k slot bank = elim (get slot k.facts) [
  | none ↦ pending
  | some f ↦ facts_settlement f bank
]

unfoldable pub kept : KnownSlots → ℕ → Option Bank
kept k slot = elim (get slot k.facts) [ none ↦ none | some f ↦ f.kept ]

unfoldable pub time : KnownSlots → ℕ → Option SlotOutcome
time k slot = elim (get slot k.facts) [
  | none ↦ none
  | some f ↦ elim f.kept [ none ↦ none | some b ↦ facts_time f b ]
]

-- The loop of `trim`: `pop_first` while there are more than `max` entries.
unfoldable pub trim : ℕ → Map Facts → Map Facts
trim max [] = []
trim max (e ∷ m) = if ltb max (length (e ∷ m)) then trim max m else e ∷ m

-- `entry(slot).or_default()` changed by `f`, then `trim`.
unfoldable pub update : KnownSlots → ℕ → (Facts → Facts) → KnownSlots
unfolding trim
update k slot f = record k {
  facts = trim k.max_known_slots (insert slot (f (get_or no_facts (get slot k.facts))) k.facts);
}

-- The `match` of `resolve`: the bank's entry is overwritten, or one is pushed.
unfoldable pub set_time : Bank → SlotOutcome → List (Bank × SlotOutcome) → List (Bank × SlotOutcome)
set_time bank o [] = (bank, o) ∷ []
set_time bank o ((b, o') ∷ rest) =
    if same_bank b bank then (b, o) ∷ rest else (b, o') ∷ set_time bank o rest

-- The `if` of `give_up`: only where the bank has no entry.
unfoldable pub add_given_up : Bank → List (Bank × SlotOutcome) → List (Bank × SlotOutcome)
add_given_up bank [] = (bank, given_up) ∷ []
add_given_up bank ((b, o) ∷ rest) =
    if same_bank b bank then (b, o) ∷ rest else (b, o) ∷ add_given_up bank rest

unfoldable pub resolve_facts : Bank → Instant → Facts → Facts
unfolding set_time
resolve_facts bank t f = record f { times = set_time bank (at t) f.times }

unfoldable pub give_up_facts : Bank → Facts → Facts
unfolding add_given_up
give_up_facts bank f = record f { times = add_given_up bank f.times }

-- `kept.get_or_insert(bank)`.
unfoldable pub keep_facts : Bank → Facts → Facts
keep_facts bank f = record f { kept = some (get_or bank f.kept) }

unfoldable pub resolve : KnownSlots → ℕ → Bank → Instant → KnownSlots
resolve k slot bank t = update k slot (resolve_facts bank t)

unfoldable pub give_up : KnownSlots → ℕ → Bank → KnownSlots
give_up k slot bank = update k slot (give_up_facts bank)

unfoldable pub keep : KnownSlots → ℕ → Bank → KnownSlots
keep k slot bank = update k slot (keep_facts bank)
