-- ===== src/Domain/Cycle/Sequence.antt =====
-- One cycle of crates/core/src/domain/analytic/model.rs after another.
use yog_sothoth.Prelude.{
  ℕ, ◌+◌, ◌-◌, ◌≤◌, ◌<◌, ◌≡◌, ◌⊎◌, refl, inl, inr, Option, none, some, Bool-cases, leb, arith,
}
use yog_sothoth.Domain.Time.{Instant, hour}
use yog_sothoth.Domain.Cycle.{
  AnalyticProgress, CycleWrite, plan, drafted, without_written, tranche, hour_of, no_earlier, plus,
  first_to_write, later_option, if_from,
}
use yog_sothoth.Domain.Cycle.Sound.{IsSound, plan-IsSound}

-- What the repository has once a cycle is written: the hour frozen, and the last tranche if there is one
-- to write, beside what was there.
abbrev pub recorded : CycleWrite → AnalyticProgress → AnalyticProgress
recorded c written = record {
  first_hour = written.first_hour;
  last_frozen = later_option c.freeze_through written.last_frozen;
  last_tranche = later_option (if_from c.tranches_from c.tranches_through) written.last_tranche;
}

-- Each frozen hour is valued whole.
abbrev pub IsValued : AnalyticProgress → Type 0
IsValued written =
    (f : Instant)
    → written.last_frozen ≡ some f
    → (l : Instant) × (written.last_tranche ≡ some l) × (f + hour ≤ l + tranche)

later_option-some :
    (a b : Option ℕ) (c : ℕ) → later_option a b ≡ some c → (a ≡ some c) ⊎ (b ≡ some c)
later_option-some none b c e = inr e
later_option-some (some a) none c e = inl e
later_option-some (some a) (some b) c e = elim (Bool-cases (leb a b)) [
  | inl later ↦ inr (ground (arith, later, e))
  | inr earlier ↦ inl (ground (arith, earlier, e))
]

later_option-left :
    (a b : Option ℕ) (l : ℕ) → a ≡ some l → (m : ℕ) × (later_option a b ≡ some m) × (l ≤ m)
later_option-left none b l e = cc
later_option-left (some a) none l e = (a, refl, ground arith)
later_option-left (some a) (some b) l e = (_, refl, ground arith)

later_option-right :
    (a b : Option ℕ) (l : ℕ) → b ≡ some l → (m : ℕ) × (later_option a b ≡ some m) × (l ≤ m)
later_option-right none b l e = (l, e, omega arith)
later_option-right (some a) none l e = cc
later_option-right (some a) (some b) l e = (_, refl, ground arith)

if_from-some : (from through : ℕ) → from ≤ through → if_from from through ≡ some through
if_from-some from through le = ground arith

starts_after :
    (frozen first : Option Instant) (current f : ℕ)
    → frozen ≡ some f
    → no_earlier (plus hour frozen) (first_to_write frozen first current) ≤ f + hour
starts_after none first current f e = cc
starts_after (some g) first current f e = ground arith

module _ (now : Instant) (written : AnalyticProgress) where
  plan-from : (f : Instant) → written.last_frozen ≡ some f → (plan now written).from ≤ f + hour
  unfolding plan without_written drafted
  plan-from f e = starts_after written.last_frozen written.first_hour (hour_of now) f e

  module _ (sound : IsSound now written (plan now written)) (valued : IsValued written) where
    recorded-IsValued : IsValued (recorded (plan now written) written)
    recorded-IsValued f e =
        let c : CycleWrite = plan now written in
        let own : Option Instant = if_from c.tranches_from c.tranches_through in
        elim (later_option-some c.freeze_through written.last_frozen f e) [
          | inl freezes ↦
              let covered = sound.frozen f freezes in
              elim (covered.3 (f + hour - 1) (omega arith) (omega arith)) [
                | inl (l, is_last, before) ↦
                    let (m, is_m, le) = later_option-right own written.last_tranche l is_last in
                    (m, is_m, omega (arith, le, before))
                | inr (writes, since, until) ↦
                    let (m, is_m, le) =
                      later_option-left own written.last_tranche c.tranches_through
                        (if_from-some c.tranches_from c.tranches_through writes) in
                    (m, is_m, omega (arith, le, until))
              ]
          | inr frozen ↦
              let (l, is_last, before) = valued f frozen in
              let (m, is_m, le) = later_option-right own written.last_tranche l is_last in
              (m, is_m, omega (arith, le, before))
        ]

    plan-next :
        (f l : Instant)
        → written.last_frozen ≡ some f
        → written.last_tranche ≡ some l
        → (plan now written).tranches_from ≡ l + tranche
    plan-next f l is_frozen is_last =
        let (k, is_k, before) = valued f is_frozen in
        let same : k ≡ l = cc in
        let low = sound.tranches l is_last in
        let high =
          sound.follows (l + tranche) (omega (arith, plan-from f is_frozen, before, same))
            (λ m e. let also : m ≡ l = cc in omega (arith, also)) in
        omega (arith, low, high)

-- At an instant past 1970's first hour, where the first hour written does not start 1970 and the
-- last frozen hour is valued whole, the last frozen hour is still valued whole once what the
-- cycle freezes and values is recorded, and a cycle after a frozen hour values from exactly the
-- end of the last tranche valued on.
pub plan-keeps :
    (now : Instant) (written : AnalyticProgress)
    → hour ≤ now
    → ((f : ℕ) → written.first_hour ≡ some f → 0 < f)
    → IsValued written
    → IsValued (recorded (plan now written) written)
      × ((f l : Instant)
          → written.last_frozen ≡ some f
          → written.last_tranche ≡ some l
          → (plan now written).tranches_from ≡ l + tranche)
plan-keeps now written past first valued =
    let sound = plan-IsSound now written past first in
    (recorded-IsValued now written sound valued, plan-next now written sound valued)
