-- ===== src/Prelude/Text.antt =====
-- Texts with a prefix.
use Prim.Native.Nat.{◌+◌}
use Prim.Native.String.{String, ◌++◌ as concat, len, slice}
use mathlib.Core.Path.{◌≡◌, refl, sym, ap, ◌∙◌}
use mathlib.Core.Option.{Option, none, some}
use mathlib.Core.Bool.{Bool, true, false}
use mathlib.Core.Logic.{inl, inr}
use text.Mathlib.Text.{◌==◌ as str_eq}
use text.Mathlib.TextEquality.{eq_iff}
use text.Mathlib.TextLemmas.{append_assoc}
use text.Mathlib.TextPositions.{len-append, slice-append_left, slice-append_right}
use native.Mathlib.Omega.{arith}
use yog_sothoth.Prelude.Tests.{Bool-cases}

-- Two texts with one prefix are equal only where what follows it is.
pub concat_rest : (p x y : String) → concat p x ≡ concat p y → x ≡ y
concat_rest p x y h =
    let same : len x ≡ len y = omega (arith, ap len h, len-append p x, len-append p y) in
    sym (slice-append_right p x)
    ∙ ap (λ t. slice t (len p) (len p + len x)) h
    ∙ ap (λ n. slice (concat p y) (len p) (len p + n)) same
    ∙ slice-append_right p y

-- Two texts with prefixes of one length are equal only where the prefixes are.
pub concat_prefix : (p q x y : String) → len p ≡ len q → concat p x ≡ concat q y → p ≡ q
concat_prefix p q x y same h =
    sym (slice-append_left p x)
    ∙ ap (λ t. slice t 0 (len p)) h
    ∙ ap (λ n. slice (concat q y) 0 n) same
    ∙ slice-append_left q y

-- `Option<&str>` compared with `==`.
abbrev pub opt_str_eq : Option String → Option String → Bool
opt_str_eq none none = true
opt_str_eq (some a) (some b) = str_eq a b
opt_str_eq _ _ = false

pub opt_str_eq→eq : (a b : Option String) → opt_str_eq a b ≡ true → a ≡ b
opt_str_eq→eq none none h = refl
opt_str_eq→eq (some a) (some b) h = ap some ((eq_iff a b).0 h)
opt_str_eq→eq none (some b) h = cc
opt_str_eq→eq (some a) none h = cc

-- A test that fails on unequal texts.
pub str_eq-ne : (a b : String) → (a ≡ b → ⊥) → str_eq a b ≡ false
str_eq-ne a b h = elim (Bool-cases (str_eq a b)) [
  | inl same ↦ absurd (h ((eq_iff a b).0 same))
  | inr differ ↦ differ
]

-- Two texts that begin with different texts of one length are different.
pub concat_apart :
    (p q a b x y : String)
    → len p ≡ len q
    → str_eq p q ≡ false
    → concat (concat p a) x ≡ concat (concat q b) y
    → ⊥
concat_apart p q a b x y same differ h =
    let rest : concat p (concat a x) ≡ concat q (concat b y) =
      sym (append_assoc p a x) ∙ h ∙ append_assoc q b y in
    let equal : str_eq p q ≡ true =
      (eq_iff p q).1 (concat_prefix p q (concat a x) (concat b y) same rest) in
    cc
