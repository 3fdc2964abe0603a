-- ===== src/Signals/Alarm/Spoken.antt =====
-- The log of crates/signals/src/application/workers/materialization_alarm.rs.
use Prim.Native.String.{String}
use text.Mathlib.TextEquality.{eq_iff}
use yog_sothoth.Prelude.{
  ◌≡◌, ◌≢◌, ◌⊎◌, refl, subst, ap, Bool, Bool-cases, inl, inr, true, false, ◌&&◌, Option, none, some,
  List, [], ◌∷◌,
}
use yog_sothoth.Signals.Alarm.{Verdict, state, names_eq, state_eq, log_change, run}

both_true : (a b : Bool) → (a && b) ≡ true → (a ≡ true) × (b ≡ true)
both_true true b h = (refl, h)
both_true false b h = cc

names_eq→eq : (xs ys : List String) → names_eq xs ys ≡ true → xs ≡ ys
names_eq→eq [] [] h = refl
names_eq→eq [] (y ∷ ys) h = cc
names_eq→eq (x ∷ xs) [] h = cc
names_eq→eq (x ∷ xs) (y ∷ ys) h =
    let (here, there) = both_true _ _ h in
    let first = (eq_iff x y).0 here in let rest = names_eq→eq xs ys there in cc

names_eq_refl : (xs : List String) → names_eq xs xs ≡ true
names_eq_refl [] = refl
names_eq_refl (x ∷ xs) = rw ((eq_iff x x).1 refl) (names_eq_refl xs)

state_eq→eq : (s t : String × List String) → state_eq s t ≡ true → s ≡ t
state_eq→eq (a, xs) (b, ys) h =
    let (here, there) = both_true _ _ h in
    let first = (eq_iff a b).0 here in let rest = names_eq→eq xs ys there in cc

state_eq_refl : (s : String × List String) → state_eq s s ≡ true
state_eq_refl (a, xs) = rw ((eq_iff a a).1 refl) (names_eq_refl xs)

-- The state last spoken of, where something was before.
abbrev pub last_state : Option (String × List String) → List Verdict → Option (String × List String)
last_state before [] = before
last_state before (v ∷ vs) = last_state (some (state v)) vs

abbrev pub state_of : Option Verdict → Option (String × List String)
state_of none = none
state_of (some v) = some (state v)

-- No verdict is in the state of the one before it.
abbrev pub Changes : Option (String × List String) → List Verdict → Type 0
Changes before [] = Unit
Changes before (v ∷ vs) = (before ≢ some (state v)) × Changes (some (state v)) vs

differ : (s t : String × List String) → state_eq s t ≡ false → s ≡ t → ⊥
differ s t h same =
    let equal : state_eq s t ≡ true = subst (λ u. state_eq s u ≡ true) same (state_eq_refl s) in cc

spoken_or_same :
    (previous : Option Verdict) (v : Verdict)
    → ((log_change previous v ≡ true) × (state_of previous ≢ some (state v)))
      ⊎ ((log_change previous v ≡ false) × (state_of previous ≡ some (state v)))
unfolding log_change
spoken_or_same none v = inl (refl, λ e. cc)
spoken_or_same (some p) v = elim (Bool-cases (state_eq (state p) (state v))) [
  | inl same ↦ inr (rw same refl, ap some (state_eq→eq _ _ same))
  | inr differs ↦ inl (rw differs refl, λ e. differ (state p) (state v) differs (cc))
]

-- Over any checks, no verdict that the log speaks of is in the state of the one it spoke of
-- before, or of the verdict before the first check, and the last one it spoke of is in the state
-- of the last check.
pub run-Changes :
    (previous : Option Verdict) (vs : List Verdict)
    → Changes (state_of previous) (run previous vs)
      × (last_state (state_of previous) (run previous vs) ≡ last_state (state_of previous) vs)
unfolding run
run-Changes previous [] = (tt, refl)
run-Changes previous (v ∷ vs) =
    let (changes, ends) = run-Changes (some v) vs in
    elim (spoken_or_same previous v) [
      | inl (speaks, differs) ↦ rw speaks ((differs, changes), ends)
      | inr (silent, same) ↦ rw (silent, same) (changes, ends)
    ]
