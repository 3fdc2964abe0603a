-- ===== src/Grpc/Session/Span.antt =====
-- crates/indexer/src/infra/grpc/session/received_span.rs: a span of slots received for good.
use yog_sothoth.Prelude.{
  ℕ, ◌≤◌, ◌≡◌, inl, inr, refl, List, [], ◌∷◌, arith, ltb, leb, ◌&&◌, if◌then◌else◌, min, max,
  Bool-cases, ℕ_discrete,
}
use yog_sothoth.Grpc.Buffer.Known.{Instant}

pub record ReceivedSpan : Type 0 where
  pub first : ℕ
  pub first_at : Instant
  pub last : ℕ
  pub last_at : Instant

unfoldable pub starting : ℕ → Instant → ReceivedSpan
starting slot at = record { first = slot; first_at = at; last = slot; last_at = at }

unfoldable pub include : ℕ → Instant → ReceivedSpan → ReceivedSpan
include slot at s =
    if leb s.first slot && leb slot s.last
    then s
    else if ltb slot s.first
    then record s { first = slot; first_at = at }
    else record s { last = slot; last_at = at }

-- The derived `PartialEq`.
pub ReceivedSpan-discrete : Discrete ReceivedSpan
ReceivedSpan-discrete = hlevel ℕ_discrete

abbrev pub InSpan : ReceivedSpan → ℕ → Type 0
InSpan s j = (s.first ≤ j) × (j ≤ s.last)

pub include_widens :
    (slot j : ℕ) (at : Instant) (s : ReceivedSpan) → InSpan s j → InSpan (include slot at s) j
unfolding include
include_widens slot j at s h = ground arith

pub include_holds :
    (slot : ℕ) (at : Instant) (s : ReceivedSpan)
    → s.first ≤ s.last
    → InSpan (include slot at s) slot
unfolding include
include_holds slot at s h = ground arith

-- A span takes in a list of slots in turn.
unfoldable pub include_all : ReceivedSpan → List (ℕ × Instant) → ReceivedSpan
include_all s [] = s
include_all s ((slot, at) ∷ l) = include_all (include slot at s) l

abbrev pub lowest : ℕ → List (ℕ × Instant) → ℕ
lowest n [] = n
lowest n ((slot, at) ∷ l) = lowest (min n slot) l

abbrev pub highest : ℕ → List (ℕ × Instant) → ℕ
highest n [] = n
highest n ((slot, at) ∷ l) = highest (max n slot) l

include_ends :
    (slot : ℕ) (at : Instant) (s : ReceivedSpan)
    → s.first ≤ s.last
    → ((include slot at s).first ≡ min s.first slot) × ((include slot at s).last ≡ max s.last slot)
unfolding include
include_ends slot at s h = ground arith

-- The ends are the lowest and the highest slot, in whatever order they come.
pub include_all_ends :
    (s : ReceivedSpan) (l : List (ℕ × Instant))
    → s.first ≤ s.last
    → ((include_all s l).first ≡ lowest s.first l) × ((include_all s l).last ≡ highest s.last l)
unfolding include_all
include_all_ends s [] h = (refl, refl)
include_all_ends s ((slot, at) ∷ l) h =
    let (lo, hi) = include_ends slot at s h in
    let (lo', hi') = include_all_ends (include slot at s) l (omega (arith, lo, hi)) in
    (rw (← lo) lo', rw (← hi) hi')

-- Each end keeps the time of its own slot.
abbrev pub EndsKnown : (ℕ → Instant → Type 0) → ReceivedSpan → Type 0
EndsKnown P s = P s.first s.first_at × P s.last s.last_at

pub include-EndsKnown :
    (P : ℕ → Instant → Type 0) (slot : ℕ) (at : Instant) (s : ReceivedSpan)
    → P slot at
    → EndsKnown P s
    → EndsKnown P (include slot at s)
unfolding include
include-EndsKnown P slot at s p h = elim (Bool-cases (leb s.first slot && leb slot s.last)) [
  | inl e ↦ rw e h
  | inr e ↦
      rw e (elim (Bool-cases (ltb slot s.first)) [ inl f ↦ rw f (p, h.1) | inr f ↦ rw f (h.0, p) ])
]
