-- ===== src/Signals/Detectors/Told.antt =====
-- The reports of the loops of crates/signals/src/application/detectors, and what rust_decimal documents.
use Prim.Native.String.{String}
use mathlib.Core.List.{Mem, mem-cons_of_mem, mem-cons_self}
use yog_sothoth.Prelude.{
  ℕ, ◌+◌, ◌≤◌, ◌≡◌, ◌⊎◌, refl, Bool-cases, true, false, inl, inr, some, List, [], ◌∷◌, length, All,
  All-weaken, arith,
}
use yog_sothoth.Domain.Protocols.{Protocol}
use yog_sothoth.Domain.Time.{Instant}
use yog_sothoth.Signals.Engine.{Signal, warning, critical}
use yog_sothoth.Signals.Detectors.{
  Decimals, Look, Report, Evidence, quiet, skip, raise, panic, grade, emit, add_look, look_all,
}

module _ (n : Decimals) where
  open n use {Decimal, zero, checked_add, checked_sub, checked_div, lt}

  -- What rust_decimal documents of amounts in its range.
  pub record Documented : Type 0 where
    pub sub_total :
        (a b : Decimal)
        → lt a zero ≡ false
        → lt b zero ≡ false
        → (d : Decimal) × (checked_sub a b ≡ some d)
    pub add_grows :
        (a b s : Decimal)
        → lt a zero ≡ false
        → lt zero b ≡ true
        → checked_add a b ≡ some s
        → lt s b ≡ false
    pub lt_asym : (a b : Decimal) → lt a b ≡ true → lt b a ≡ false
    pub div_total :
        (a b : Decimal)
        → lt zero a ≡ true
        → lt b a ≡ false
        → (q : Decimal) × (checked_div a b ≡ some q)

  -- Of a signal raised at `now`: what it measured reaches the threshold that it records, which is that
  -- of its severity.
  abbrev pub IsGraded : Decimal → Decimal → Instant → Decimal → Signal (Evidence n) → Type 0
  IsGraded threshold escalation now magnitude s =
      (s.triggered_at ≡ now)
      × (lt magnitude threshold ≡ false)
      × (((s.severity ≡ critical)
            × (s.rest.threshold ≡ some escalation)
            × (lt magnitude escalation ≡ false))
          ⊎ ((s.severity ≡ warning)
              × (s.rest.threshold ≡ some threshold)
              × (lt magnitude escalation ≡ true)))

  -- A look that is no panic, and whose signal has a property.
  abbrev pub Told : (Signal (Evidence n) → Type 0) → Look n → Type 0
  Told P quiet = Unit
  Told P (skip reason) = Unit
  Told P (raise s) = P s
  Told P panic = ⊥

  pub emit-Told :
      (P : Signal (Evidence n) → Type 0) (name : String) (protocol : Protocol) (pool : ℕ)
      (now : Instant) (threshold escalation magnitude value : Decimal) (message : String)
      → ((s : Signal (Evidence n))
          → s.pool_address ≡ pool
          → s.rest.value ≡ value
          → IsGraded threshold escalation now magnitude s
          → P s)
      → Told P (emit n name protocol pool now threshold escalation magnitude value message)
  unfolding emit grade
  emit-Told P name protocol pool now threshold escalation magnitude value message f =
      elim (Bool-cases (lt magnitude threshold)) [
        | inl below ↦ rw below tt
        | inr reached ↦ rw reached (
            f _ refl refl (
              refl,
              reached,
              elim (Bool-cases (lt magnitude escalation)) [
                | inl e ↦ inr (rw e (refl, refl, refl))
                | inr e ↦ inl (rw e (refl, refl, refl))
              ],
            ))
      ]

  -- A report on pools: what each signal has, and that no pool is counted twice.
  abbrev pub Reports :
      {P : Type 0} → (P → Signal (Evidence n) → Type 0) → List P → ℕ → Report n → Type 0
  Reports {P = P} Q ps count r =
      (r.considered ≡ count)
      × All (λ s. (p : P) × Mem p ps × Q p s) r.signals
      × (length r.signals + length r.skipped ≤ length ps)

  add_look-Reports :
      {P : Type 0} (Q : P → Signal (Evidence n) → Type 0) (p : P) (ps : List P) (count : ℕ)
      (l : Look n) (r : Report n)
      → Told (Q p) l
      → Reports Q ps count r
      → (r' : Report n) × (add_look n l r ≡ some r') × Reports Q (p ∷ ps) count r'
  add_look-Reports {P = P} Q p ps count l r told (same, raised, le) =
      let older =
        All-weaken _ (λ s. (q : P) × Mem q (p ∷ ps) × Q q s)
          (λ s (q, m, h). (q, mem-cons_of_mem p m, h)) r.signals raised in
      look_cases l told older
    where
      look_cases :
          (l : Look n)
          → Told (Q p) l
          → All (λ s. (q : P) × Mem q (p ∷ ps) × Q q s) r.signals
          → (r' : Report n) × (add_look n l r ≡ some r') × Reports Q (p ∷ ps) count r'
      look_cases quiet t older = (_, refl, (same, older, omega (arith, le)))
      look_cases (skip reason) t older = (_, refl, (same, older, omega (arith, le)))
      look_cases (raise s) t older =
          (_, refl, (same, ((p, mem-cons_self, t), older), omega (arith, le)))
      look_cases panic t older = elim t [ ]

  -- Where no pool panics, the loop ends in a report.
  pub look_all-Reports :
      {P : Type 0} (Q : P → Signal (Evidence n) → Type 0) (look : P → Look n) (count : ℕ)
      (ps : List P)
      → All (λ p. Told (Q p) (look p)) ps
      → (r : Report n) × (look_all n count look ps ≡ some r) × Reports Q ps count r
  unfolding look_all
  look_all-Reports Q look count [] told = (_, refl, (refl, tt, omega arith))
  look_all-Reports Q look count (p ∷ ps) (first, told) =
      let (r, e, h) = look_all-Reports Q look count ps told in
      let (r', e', h') = add_look-Reports Q p ps count (look p) r first h in (r', rw e e', h')
