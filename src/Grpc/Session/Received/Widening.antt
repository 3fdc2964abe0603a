-- ===== src/Grpc/Session/Received/Widening.antt =====
-- How the span of crates/indexer/src/infra/grpc/session/received_slots.rs takes in a list of slots.
use yog_sothoth.Prelude.{
  ℕ, ◌≤◌, ◌<◌, ◌≢◌, refl, Option, none, some, [], ◌∷◌, arith, subst, ℕ_discrete,
}
use yog_sothoth.Prelude.Map.{Map, get, Entries}
use yog_sothoth.Grpc.Buffer.Known.{Instant}
use yog_sothoth.Grpc.Session.Span.{
  ReceivedSpan, starting, include, InSpan, include_widens, include_holds,
}
use yog_sothoth.Grpc.Session.Received.{widen, widen_all}

-- The span starts no lower than the start, and ends below `hi`.
abbrev pub SpanWithin : Option ℕ → ℕ → Option ReceivedSpan → Type 0
SpanWithin from hi none = Unit {0}
SpanWithin none hi (some s) = ⊥
SpanWithin (some from) hi (some s) = (from ≤ s.first) × (s.first ≤ s.last) × (s.last < hi)

abbrev pub KeyFrom : Option ℕ → ℕ → Type 0
KeyFrom none k = ⊥
KeyFrom (some from) k = from ≤ k

abbrev pub Counted : Option ReceivedSpan → ℕ → Type 0
Counted none j = ⊥
Counted (some s) j = InSpan s j

pub SpanWithin-mono :
    (from : Option ℕ) (lo hi : ℕ) (s : Option ReceivedSpan)
    → lo ≤ hi
    → SpanWithin from lo s
    → SpanWithin from hi s
SpanWithin-mono from lo hi none h w = tt
SpanWithin-mono none lo hi (some s) h w = w
SpanWithin-mono (some from) lo hi (some s) h w = omega arith

SpanWithin-widen :
    (from hi slot : ℕ) (at : Instant) (s : Option ReceivedSpan)
    → from ≤ slot
    → slot < hi
    → SpanWithin (some from) hi s
    → SpanWithin (some from) hi (widen s slot at)
unfolding widen starting include
SpanWithin-widen from hi slot at none a b w = omega arith
SpanWithin-widen from hi slot at (some s) a b w = ground arith

SpanWithin-widen_all :
    (from hi : ℕ) (s : Option ReceivedSpan) (l : Map Instant)
    → Entries (λ k _. (k < hi) × (from ≤ k)) l
    → SpanWithin (some from) hi s
    → SpanWithin (some from) hi (widen_all s l)
unfolding widen_all
SpanWithin-widen_all from hi s [] h w = w
SpanWithin-widen_all from hi s ((slot, at) ∷ l) h w =
    SpanWithin-widen_all from hi (widen s slot at) l h.1
      (SpanWithin-widen from hi slot at s h.0.1 h.0.0 w)

Counted-widen :
    (slot j : ℕ) (at : Instant) (s : Option ReceivedSpan)
    → Counted s j
    → Counted (widen s slot at) j
unfolding widen
Counted-widen slot j at none c = absurd c
Counted-widen slot j at (some s) c = include_widens slot j at s c

pub Counted-widen_all :
    (j : ℕ) (s : Option ReceivedSpan) (l : Map Instant) → Counted s j → Counted (widen_all s l) j
unfolding widen_all
Counted-widen_all j s [] c = c
Counted-widen_all j s ((slot, at) ∷ l) c =
    Counted-widen_all j (widen s slot at) l (Counted-widen slot j at s c)

Counted-widen_self :
    (from hi slot : ℕ) (at : Instant) (s : Option ReceivedSpan)
    → SpanWithin (some from) hi s
    → Counted (widen s slot at) slot
unfolding widen starting
Counted-widen_self from hi slot at none w = omega arith
Counted-widen_self from hi slot at (some s) w = include_holds slot at s w.1

-- Each slot of the list is in the span that takes it in.
widen_all-Counted :
    (from hi j : ℕ) (s : Option ReceivedSpan) (l : Map Instant)
    → Entries (λ k _. (k < hi) × (from ≤ k)) l
    → SpanWithin (some from) hi s
    → get j l ≢ none
    → Counted (widen_all s l) j
unfolding widen_all get
widen_all-Counted from hi j s [] h w g = absurd (g refl)
widen_all-Counted from hi j s ((slot, at) ∷ l) h w g = elim (ℕ_discrete slot j) [
  | yes p ↦
      subst (Counted (widen_all (widen s slot at) l)) p
        (Counted-widen_all slot (widen s slot at) l (Counted-widen_self from hi slot at s w))
  | no p ↦
      widen_all-Counted from hi j (widen s slot at) l h.1
        (SpanWithin-widen from hi slot at s h.0.1 h.0.0 w) (ground arith)
]

-- The two facts at whatever start is set.
pub SpanWithin-received :
    (c : Option ℕ) (hi : ℕ) (s : Option ReceivedSpan) (l : Map Instant)
    → Entries (λ k _. (k < hi) × KeyFrom c k) l
    → SpanWithin c hi s
    → SpanWithin c hi (widen_all s l)
SpanWithin-received none hi s [] h w = unfold widen_all in w
SpanWithin-received none hi s (e ∷ l) h w = absurd h.0.1
SpanWithin-received (some from) hi s l h w = SpanWithin-widen_all from hi s l h w

pub received-Counted :
    (c : Option ℕ) (hi j : ℕ) (s : Option ReceivedSpan) (l : Map Instant)
    → Entries (λ k _. (k < hi) × KeyFrom c k) l
    → SpanWithin c hi s
    → get j l ≢ none
    → Counted (widen_all s l) j
received-Counted none hi j s [] h w g = absurd (unfold get in g refl)
received-Counted none hi j s (e ∷ l) h w g = absurd h.0.1
received-Counted (some from) hi j s l h w g = widen_all-Counted from hi j s l h w g
