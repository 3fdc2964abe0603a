-- ===== src/Prelude/Map.antt =====
-- `BTreeMap<u64, V>`, as the association list of its entries in ascending order of the key.
use Prim.Native.Nat.{ℕ, suc, ◌≤◌, ◌<◌}
use mathlib.Core.Path.{◌≡◌, refl, subst}
use mathlib.Core.Logic.{◌≢◌, inl, inr}
use mathlib.Core.List.{List, [], ◌∷◌}
use mathlib.Core.Option.{Option, none, some}
use native.Mathlib.Omega.{arith}
use yog_sothoth.Prelude.Tests.{Bool-cases, ==_iff, if◌then◌else◌, ltb, ◌==◌}
use yog_sothoth.Prelude.Lists.{length, All}

abbrev pub Map {ℓ} : Type ℓ → Type ℓ
Map V = List (ℕ × V)

module _ {ℓ} {V : Type ℓ} where
  abbrev pub get_or : V → Option V → V
  get_or d none = d
  get_or d (some v) = v

  unfoldable pub get : ℕ → Map V → Option V
  get k [] = none
  get k ((j, v) ∷ m) = if j == k then some v else get k m

  unfoldable pub insert : ℕ → V → Map V → Map V
  insert k v [] = (k, v) ∷ []
  insert k v ((j, w) ∷ m) =
      if ltb k j then (k, v) ∷ (j, w) ∷ m else if j == k then (k, v) ∷ m else (j, w) ∷ insert k v m

  unfoldable pub remove : ℕ → Map V → Map V
  remove k [] = []
  remove k ((j, w) ∷ m) = if j == k then m else (j, w) ∷ remove k m

  -- `first_key_value().map(|(k, _)| *k)`.
  unfoldable pub first : Map V → Option ℕ
  first [] = none
  first ((k, v) ∷ m) = some k

  -- `last_key_value().map(|(k, _)| *k)`.
  unfoldable pub last : Map V → Option ℕ
  last [] = none
  last ((k, v) ∷ []) = some k
  last ((k, v) ∷ e ∷ m) = last (e ∷ m)

  -- What `split_off(&at)` leaves behind: the entries below `at`.
  unfoldable pub split_below : ℕ → Map V → Map V
  split_below at [] = []
  split_below at ((k, v) ∷ m) = if ltb k at then (k, v) ∷ split_below at m else []

  -- What `split_off(&at)` returns: the entries from `at` on.
  unfoldable pub split_from : ℕ → Map V → Map V
  split_from at [] = []
  split_from at ((k, v) ∷ m) = if ltb k at then split_from at m else (k, v) ∷ m

  -- The keys are at least `n` and rise.
  abbrev pub SortedFrom : ℕ → Map V → Type 0
  SortedFrom n [] = Unit
  SortedFrom n ((k, v) ∷ m) = (n ≤ k) × SortedFrom (suc k) m

  pub SortedFrom-mono : (i n : ℕ) (m : Map V) → i ≤ n → SortedFrom n m → SortedFrom i m
  SortedFrom-mono i n [] h s = tt
  SortedFrom-mono i n ((k, v) ∷ m) h s = (omega arith, s.1)

  pub SortedFrom-insert :
      (n k : ℕ) (v : V) (m : Map V) → n ≤ k → SortedFrom n m → SortedFrom n (insert k v m)
  unfolding insert
  SortedFrom-insert n k v [] h s = (h, tt)
  SortedFrom-insert n k v ((j, w) ∷ m) h s =
      ground (arith, SortedFrom-insert (suc j) k v m, SortedFrom-mono (suc k) (suc j) m)

  pub SortedFrom-remove : (n k : ℕ) (m : Map V) → SortedFrom n m → SortedFrom n (remove k m)
  unfolding remove
  SortedFrom-remove n k [] s = tt
  SortedFrom-remove n k ((j, w) ∷ m) s =
      ground (arith, SortedFrom-remove (suc j) k m, SortedFrom-mono n (suc j) m)

  pub get_below : (n k : ℕ) (m : Map V) → SortedFrom n m → k < n → get k m ≡ none
  unfolding get
  get_below n k [] s h = refl
  get_below n k ((j, w) ∷ m) s h = ground (arith, get_below (suc j) k m)

  pub get-insert :
      (k j : ℕ) (v : V) (m : Map V) → get j (insert k v m) ≡ (if k == j then some v else get j m)
  unfolding get insert
  get-insert k j v [] = refl
  get-insert k j v ((i, w) ∷ m) = ground (arith, get-insert k j v m)

  pub get-remove :
      (n k j : ℕ) (m : Map V)
      → SortedFrom n m
      → get j (remove k m) ≡ (if k == j then none else get j m)
  unfolding get remove
  get-remove n k j [] s = ground arith
  get-remove n k j ((i, w) ∷ m) s = ground (arith, get-remove (suc i) k j m, get_below (suc i) j m)

  pub length-remove : (k : ℕ) (m : Map V) → get k m ≢ none → suc (length (remove k m)) ≡ length m
  unfolding get remove
  length-remove k [] h = absurd (h refl)
  length-remove k ((j, w) ∷ m) h = ground (arith, length-remove k m)

  -- A property of every entry, of its key and its value.
  abbrev pub Entries {κ} : (ℕ → V → Type κ) → Map V → Type κ
  Entries P m = All (λ e. P e.0 e.1) m

  pub Entries-insert {κ} :
      (P : ℕ → V → Type κ) (k : ℕ) (v : V) (m : Map V)
      → P k v
      → Entries P m
      → Entries P (insert k v m)
  unfolding insert
  Entries-insert P k v [] p h = (p, tt)
  Entries-insert P k v ((j, w) ∷ m) p h = elim (Bool-cases (ltb k j)) [
    | inl e ↦ rw e (p, h)
    | inr e ↦ rw e (elim (Bool-cases (j == k)) [
      | inl e' ↦ rw e' (p, h.1)
      | inr e' ↦ rw e' (h.0, Entries-insert P k v m p h.1)
    ])
  ]

  pub Entries-remove {κ} :
      (P : ℕ → V → Type κ) (k : ℕ) (m : Map V) → Entries P m → Entries P (remove k m)
  unfolding remove
  Entries-remove P k [] h = tt
  Entries-remove P k ((j, w) ∷ m) h = elim (Bool-cases (j == k)) [
    | inl e ↦ rw e h.1
    | inr e ↦ rw e (h.0, Entries-remove P k m h.1)
  ]

  pub Entries-get {κ} :
      (P : ℕ → V → Type κ) (k : ℕ) (v : V) (m : Map V) → get k m ≡ some v → Entries P m → P k v
  unfolding get
  Entries-get P k v [] e h = cc
  Entries-get P k v ((j, w) ∷ m) e h = elim (Bool-cases (j == k)) [
    | inl t ↦
        let p : j ≡ k = (==_iff j k).0 t in
        let q : w ≡ v = ground arith in subst (λ i. P i v) p (subst (P j) q h.0)
    | inr t ↦ Entries-get P k v m (ground arith) h.1
  ]

  -- Past a key, a property of all other entries is one of all entries.
  Entries-above {κ} :
      (P : ℕ → V → Type κ) (n k : ℕ) (m : Map V)
      → k < n
      → SortedFrom n m
      → Entries (λ j v. j ≢ k → P j v) m
      → Entries P m
  Entries-above P n k [] h s p = tt
  Entries-above P n k ((j, w) ∷ m) h s p =
      (p.0 (omega arith), Entries-above P (suc j) k m (omega arith) s.1 p.1)

  pub Entries-remove_key {κ} :
      (P : ℕ → V → Type κ) (n k : ℕ) (m : Map V)
      → SortedFrom n m
      → Entries (λ j v. j ≢ k → P j v) m
      → Entries P (remove k m)
  unfolding remove
  Entries-remove_key P n k [] s p = tt
  Entries-remove_key P n k ((j, w) ∷ m) s p = elim (Bool-cases (j == k)) [
    | inl t ↦ rw t (Entries-above P (suc j) k m (ground arith) s.1 p.1)
    | inr t ↦ rw t (p.0 (ground arith), Entries-remove_key P (suc j) k m s.1 p.1)
  ]

  pub Entries-insert_key {κ} :
      (P : ℕ → V → Type κ) (n k : ℕ) (v : V) (m : Map V)
      → SortedFrom n m
      → P k v
      → Entries (λ j w. j ≢ k → P j w) m
      → Entries P (insert k v m)
  unfolding insert
  Entries-insert_key P n k v [] s q p = (q, tt)
  Entries-insert_key P n k v ((j, w) ∷ m) s q p = elim (Bool-cases (ltb k j)) [
    | inl e ↦ rw e (q, (p.0 (ground arith), Entries-above P (suc j) k m (ground arith) s.1 p.1))
    | inr e ↦ rw e (elim (Bool-cases (j == k)) [
      | inl t ↦ rw t (q, Entries-above P (suc j) k m (ground arith) s.1 p.1)
      | inr t ↦ rw t (p.0 (ground arith), Entries-insert_key P (suc j) k v m s.1 q p.1)
    ])
  ]

  -- A property of the entries of the other keys than one that is not there is one of all.
  pub Entries-absent {κ} :
      (P : ℕ → V → Type κ) (k : ℕ) (m : Map V)
      → get k m ≡ none
      → Entries (λ j v. j ≢ k → P j v) m
      → Entries P m
  unfolding get
  Entries-absent P k [] e p = tt
  Entries-absent P k ((j, w) ∷ m) e p = elim (Bool-cases (j == k)) [
    | inl t ↦ absurd (ground arith)
    | inr t ↦ (p.0 (ground arith), Entries-absent P k m (ground arith) p.1)
  ]
