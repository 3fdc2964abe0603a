-- ===== src/Prelude/Splits.antt =====
-- `BTreeMap::split_off`: what each part holds.
use Prim.Native.Nat.{ℕ, suc, ◌≤◌, ◌<◌}
use mathlib.Core.Path.{◌≡◌, refl, sym}
use mathlib.Core.Logic.{inl, inr}
use mathlib.Core.Bool.{false}
use mathlib.Core.List.{[], ◌∷◌}
use native.Mathlib.Omega.{arith}
use yog_sothoth.Prelude.Tests.{Bool-cases, ltb}
use yog_sothoth.Prelude.Map.{
  Map, get, split_below, split_from, SortedFrom, SortedFrom-mono, get_below, Entries,
}

module _ {ℓ} {V : Type ℓ} where
  pub SortedFrom-split_from :
      (n at : ℕ) (m : Map V) → SortedFrom n m → SortedFrom n (split_from at m)
  unfolding split_from
  SortedFrom-split_from n at [] s = tt
  SortedFrom-split_from n at ((k, v) ∷ m) s =
      ground
        (arith, SortedFrom-split_from (suc k) at m s.1, SortedFrom-mono n (suc k) (split_from at m))

  pub Entries-split_from {κ} :
      (P : ℕ → V → Type κ) (at : ℕ) (m : Map V) → Entries P m → Entries P (split_from at m)
  unfolding split_from
  Entries-split_from P at [] h = tt
  Entries-split_from P at ((k, v) ∷ m) h = elim (Bool-cases (ltb k at)) [
    | inl e ↦ rw e (Entries-split_from P at m h.1)
    | inr e ↦ rw e h
  ]

  -- The lower part keeps what held, and its keys lie below the split.
  pub Entries-split_below {κ} :
      (P : ℕ → V → Type κ) (at : ℕ) (m : Map V)
      → Entries P m
      → Entries (λ k v. (k < at) × P k v) (split_below at m)
  unfolding split_below
  Entries-split_below P at [] h = tt
  Entries-split_below P at ((k, v) ∷ m) h = elim (Bool-cases (ltb k at)) [
    | inl e ↦ rw e ((ground arith, h.0), Entries-split_below P at m h.1)
    | inr e ↦ rw e tt
  ]

  pub get-split_below :
      (n at j : ℕ) (m : Map V) → SortedFrom n m → j < at → get j (split_below at m) ≡ get j m
  unfolding get split_below
  get-split_below n at j [] s h = refl
  get-split_below n at j ((k, v) ∷ m) s h = elim (Bool-cases (ltb k at)) [
    | inl e ↦ rw (e, get-split_below (suc k) at j m s.1 h)
    | inr e ↦ rw e (sym (get_below k j ((k, v) ∷ m) (omega arith, s.1) (above k e)))
  ]
    where
      above : (k : ℕ) → ltb k at ≡ false → suc j ≤ k
      above k e = ground arith

  pub get-split_from : (at j : ℕ) (m : Map V) → at ≤ j → get j (split_from at m) ≡ get j m
  unfolding get split_from
  get-split_from at j [] h = refl
  get-split_from at j ((k, v) ∷ m) h = ground (arith, get-split_from at j m h)
