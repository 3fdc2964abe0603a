-- ===== src/Api/Live/Settling.antt =====
-- The loop of `settle` in crates/api/src/application/live/watermark.rs beside one walk over the ids.
use yog_sothoth.Prelude.{
  ℕ, zero, suc, ◌+◌, ◌-◌, ◌<◌, ◌≤◌, ◌≡◌, refl, true, false, ◌||◌, not, some, [], ◌∷◌, ltb, ◌==◌,
  ==_iff, length, if◌then◌else◌, arith, Bool-cases, inl, inr, ◌∙◌,
}
use yog_sothoth.Prelude.Map.{Map, SortedFrom}
use yog_sothoth.Api.Live.Watermark.{LiveWatermark, gap_settle, advance, round, settle_loop, settle}

-- The ids are above the floor, and rise.
abbrev pub IsValid : LiveWatermark → Type 0
IsValid w = SortedFrom (suc w.floor) w.delivered

-- The floor passes an id that follows it, and one that was read long enough ago.
unfoldable pub walk : ℕ → ℕ → Map ℕ → LiveWatermark
walk now floor [] = record { floor = floor; delivered = [] }
walk now floor ((id, read_at) ∷ m) =
    if id == floor + 1 || not (ltb (now - read_at) gap_settle)
    then walk now id m
    else record { floor = floor; delivered = (id, read_at) ∷ m }

walk-advance :
    (now floor : ℕ) (m : Map ℕ)
    → walk now (advance floor m).floor (advance floor m).delivered ≡ walk now floor m
unfolding walk advance
walk-advance now floor [] = refl
walk-advance now floor ((id, read_at) ∷ m) = elim (Bool-cases (id == floor + 1)) [
  | inl e ↦
      let same : id ≡ floor + 1 = (==_iff _ _).0 e in
      rw (e) (rw same (walk-advance now (floor + 1) m))
  | inr e ↦ rw (e) (rw e)
]

advance-shorter : (floor : ℕ) (m : Map ℕ) → length (advance floor m).delivered ≤ length m
unfolding advance
advance-shorter floor [] = omega arith
advance-shorter floor ((id, read_at) ∷ m) = ground (arith, advance-shorter (floor + 1) m)

advance-Sorted : (floor : ℕ) (m : Map ℕ) → SortedFrom (suc floor) m → IsValid (advance floor m)
unfolding advance
advance-Sorted floor [] s = tt
advance-Sorted floor ((id, read_at) ∷ m) s = elim (Bool-cases (id == floor + 1)) [
  | inl e ↦
      let same : id ≡ floor + 1 = (==_iff _ _).0 e in
      rw e (advance-Sorted (floor + 1) m (rw same at s.1))
  | inr e ↦ rw e s
]

-- Where the first id follows the floor, the inner loop begins by taking it out.
settle_loop-cons :
    (fuel now id read_at : ℕ) (m : Map ℕ)
    → 0 < id
    → settle_loop (suc fuel) now (record { floor = id - 1; delivered = (id, read_at) ∷ m })
      ≡ settle_loop (suc fuel) now (record { floor = id; delivered = m })
unfolding settle_loop advance
settle_loop-cons fuel now id read_at m h =
    let follows : (id == id - 1 + 1) ≡ true = (==_iff _ _).1 (omega arith) in
    let same : id - 1 + 1 ≡ id = omega arith in rw follows (rw same)

-- What is left after the inner loop does not begin with the id that follows the floor.
abbrev Halts : ℕ → Map ℕ → Type 0
Halts floor [] = Unit
Halts floor ((id, read_at) ∷ m) = (id == floor + 1) ≡ false

advance-Halts : (floor : ℕ) (m : Map ℕ) → Halts (advance floor m).floor (advance floor m).delivered
unfolding advance
advance-Halts floor [] = tt
advance-Halts floor ((id, read_at) ∷ m) = elim (Bool-cases (id == floor + 1)) [
  | inl e ↦ rw e (advance-Halts (floor + 1) m)
  | inr e ↦ rw e e
]

-- One round, where the rounds after it end as the walk does.
round-eq-walk :
    (fuel now floor : ℕ) (m : Map ℕ)
    → ((w : LiveWatermark)
        → IsValid w
        → length w.delivered < fuel
        → settle_loop fuel now w ≡ some (walk now w.floor w.delivered))
    → Halts floor m
    → SortedFrom (suc floor) m
    → length m ≤ fuel
    → round (λ w. settle_loop fuel now w) now (record { floor = floor; delivered = m }) m
      ≡ some (walk now floor m)
unfolding round walk
round-eq-walk fuel now floor [] ih halts s h = refl
round-eq-walk zero now floor ((id, read_at) ∷ m) ih halts s h = absurd (omega arith)
round-eq-walk (suc fuel) now floor ((id, read_at) ∷ m) ih halts s h =
    elim (Bool-cases (ltb (now - read_at) gap_settle)) [
      | inl early ↦ rw (halts, early, round)
      | inr late ↦
          rw (halts, late, round)
            (settle_loop-cons fuel now id read_at m (omega arith)
              ∙ ih (record { floor = id; delivered = m }) s.1 (omega arith))
    ]

-- With more fuel than ids, the loop ends, as the walk does.
settle_loop-eq-walk :
    (fuel now : ℕ) (w : LiveWatermark)
    → IsValid w
    → length w.delivered < fuel
    → settle_loop fuel now w ≡ some (walk now w.floor w.delivered)
unfolding settle_loop
settle_loop-eq-walk zero now w v h = absurd (omega arith)
settle_loop-eq-walk (suc fuel) now w v h =
    let left : LiveWatermark = advance w.floor w.delivered in
    rw (← walk-advance now w.floor w.delivered) (
      round-eq-walk fuel now left.floor left.delivered (settle_loop-eq-walk fuel now)
        (advance-Halts w.floor w.delivered) (advance-Sorted w.floor w.delivered v)
        (omega (arith, advance-shorter w.floor w.delivered)))

-- From a watermark whose ids are above its floor and rise, settle ends, and what it leaves is
-- what one walk over the ids leaves, which passes each id that follows the floor or was read at
-- least the settling time ago, and stops at the first other one.
pub settle-eq-walk :
    (now : ℕ) (w : LiveWatermark) → IsValid w → settle now w ≡ some (walk now w.floor w.delivered)
unfolding settle
settle-eq-walk now w v = settle_loop-eq-walk (suc (length w.delivered)) now w v (omega arith)
