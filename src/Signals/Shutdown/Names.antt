-- ===== src/Signals/Shutdown/Names.antt =====
-- The names that crates/signals/src/application/workers/signal_engine.rs sorts.
use Prim.Native.Nat.{Ordering, compare as compare_nat}
use Prim.Native.Char.{code}
use Prim.Native.String.{String, [] as nil, ◌∷◌ as cons, compare, then as first_of}
use Prim.Native.String.compare
use mathlib.Core.List.{Perm}
use mathlib.Core.List.Perm
use native.Mathlib.Omega.{compare-gt, compare-eq}
use yog_sothoth.Prelude.{
  ℕ, ◌≡◌, ◌≢◌, lt→ltb, ==_iff, ◌⊎◌, refl, sym, ◌∙◌, Bool-cases, inl, inr, true, false, List, [],
  ◌∷◌, map,
}
use yog_sothoth.Prelude.Map.{Map}
use yog_sothoth.Signals.Shutdown.{is_before, insert_name, names}

-- A text comes no later than another, in the order of `str`.
abbrev pub IsAtMost : String → String → Type 0
IsAtMost s t = compare s t ≢ Ordering.gt

abbrev pub IsAtMostHead : String → List String → Type 0
IsAtMostHead s [] = Unit
IsAtMostHead s (t ∷ ts) = IsAtMost s t

abbrev pub IsAscending : List String → Type 0
IsAscending [] = Unit
IsAscending (s ∷ ts) = IsAtMostHead s ts × IsAscending ts

below : (o : Ordering) → elim o [ Ordering.lt ↦ true | _ ↦ false ] ≡ true → o ≡ Ordering.lt
below Ordering.lt h = refl
below Ordering.eq h = cc
below Ordering.gt h = cc

equal : (o : Ordering) → elim o [ Ordering.eq ↦ true | _ ↦ false ] ≡ true → o ≡ Ordering.eq
equal Ordering.lt h = cc
equal Ordering.eq h = refl
equal Ordering.gt h = cc

flip_nat : (m n : ℕ) → compare_nat m n ≡ Ordering.gt → compare_nat n m ≡ Ordering.lt
flip_nat m n h = below (compare_nat n m) (lt→ltb n m (compare-gt m n h))

flip_eq : (m n : ℕ) → compare_nat m n ≡ Ordering.eq → compare_nat n m ≡ Ordering.eq
flip_eq m n h = equal (compare_nat n m) ((==_iff n m).1 (sym (compare-eq m n h)))

then_cases :
    (o r : Ordering)
    → first_of o r ≡ Ordering.gt
    → (o ≡ Ordering.gt) ⊎ ((o ≡ Ordering.eq) × (r ≡ Ordering.gt))
then_cases Ordering.lt r h = cc
then_cases Ordering.eq r h = inr (refl, h)
then_cases Ordering.gt r h = inl refl

flip : (s t : String) → compare s t ≡ Ordering.gt → compare t s ≡ Ordering.lt
flip nil nil h = absurd (let e = compare.nil-nil in cc)
flip nil (cons d t) h = absurd (let e = compare.nil-cons d t in cc)
flip (cons c s) nil h = compare.nil-cons c s
flip (cons c s) (cons d t) h =
    elim (then_cases (compare_nat (code c) (code d)) (compare s t)
      (sym (compare.cons-cons c d s t) ∙ h)) [
        | inl above ↦ rw (compare.cons-cons d c t s, flip_nat (code c) (code d) above) refl
        | inr (same, above) ↦
            rw (compare.cons-cons d c t s, flip_eq (code c) (code d) same) (flip s t above)
      ]

at_most_of : (o : Ordering) → elim o [ Ordering.gt ↦ false | _ ↦ true ] ≡ true → o ≢ Ordering.gt
at_most_of Ordering.lt h e = cc
at_most_of Ordering.eq h e = cc
at_most_of Ordering.gt h e = cc

not_before : (o : Ordering) → elim o [ Ordering.gt ↦ false | _ ↦ true ] ≡ false → o ≡ Ordering.gt
not_before Ordering.lt h = cc
not_before Ordering.eq h = cc
not_before Ordering.gt h = refl

-- Of two texts, one comes no later than the other.
after-IsAtMost : (s t : String) → is_before s t ≡ false → IsAtMost t s
after-IsAtMost s t h e = let turned = flip s t (not_before (compare s t) h) in cc

insert_name-head :
    (t s : String) (ts : List String)
    → IsAtMost t s
    → IsAtMostHead t ts
    → IsAtMostHead t (insert_name s ts)
unfolding insert_name
insert_name-head t s [] h k = h
insert_name-head t s (u ∷ ts) h k = elim (Bool-cases (is_before s u)) [
  | inl first ↦ rw first h
  | inr later ↦ rw later k
]

insert_name-IsAscending :
    (s : String) (ts : List String) → IsAscending ts → IsAscending (insert_name s ts)
unfolding insert_name
insert_name-IsAscending s [] h = (tt, tt)
insert_name-IsAscending s (t ∷ ts) h = elim (Bool-cases (is_before s t)) [
  | inl first ↦ rw first (at_most_of (compare s t) first, h)
  | inr later ↦
      rw later
        (insert_name-head t s ts (after-IsAtMost s t later) h.0, insert_name-IsAscending s ts h.1)
]

insert_name-Perm : (s : String) (ts : List String) → Perm (insert_name s ts) (s ∷ ts)
unfolding insert_name
insert_name-Perm s [] = Perm.rfl
insert_name-Perm s (t ∷ ts) = elim (Bool-cases (is_before s t)) [
  | inl first ↦ rw first Perm.rfl
  | inr later ↦ rw later (Perm.trans (Perm.cons t (insert_name-Perm s ts)) (Perm.swap s t ts))
]

pub names-IsAscending : (m : Map String) → IsAscending (names m)
unfolding names
names-IsAscending [] = tt
names-IsAscending ((id, name) ∷ m) = insert_name-IsAscending name (names m) (names-IsAscending m)

pub names-Perm : (m : Map String) → Perm (names m) (map (λ e. e.1) m)
unfolding names
names-Perm [] = Perm.rfl
names-Perm ((id, name) ∷ m) =
    Perm.trans (insert_name-Perm name (names m)) (Perm.cons name (names-Perm m))
