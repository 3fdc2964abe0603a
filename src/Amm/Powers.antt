-- ===== src/Amm/Powers.antt =====
-- The fixed-point power of crates/core/src/amm/damm_v2.rs beside the exact one.
use yog_sothoth.Prelude.{
  ℕ, suc, zero, ◌+◌, ◌*◌, ◌/◌, ◌%◌, ◌^◌, ◌≤◌, ◌<◌, ◌≡◌, ◌∙◌, refl, ap, sym, Bool-cases, ◌⊎◌, inl,
  inr, Option, none, some, leb, arith,
}
use yog_sothoth.Prelude.Map.{get_or}
use yog_sothoth.Prelude.Machine.{checked_mul}
use yog_sothoth.Amm.Fees.{one_q64, max_exponential, multiplied, pow_loop, and_then}
use native.Mathlib.Nat.{
  mul_assoc, mul-le-mul, mul-le-mul_right, le_of_mul-le-mul_right, div-mul-le_self, pow-succ',
  pow-zero, mod-lt, mod-eq_of_lt, mod-add-div, mul-add, add-mul-mod_self_left, mul-mul-mul_comm,
}

pow_plus : (b n m : ℕ) → b ^ (n + m) ≡ b ^ n * b ^ m
pow_plus b zero m = let same : 0 + m ≡ m = omega arith in rw (same, pow-zero b) (omega arith)
pow_plus b (suc n) m =
    let same : suc n + m ≡ suc (n + m) = omega arith in
    rw (same, pow-succ' b (n + m), pow-succ' b n, pow_plus b n m)
      (sym (mul_assoc b (b ^ n) (b ^ m)))

pow_one : (b : ℕ) → b ^ 1 ≡ b
pow_one b = rw (pow-succ' b 0, pow-zero b) (omega arith)

pub swap_last : (a b c : ℕ) → a * b * c ≡ a * c * b
swap_last a b c = grind arith

-- `x`, in fixed point, is at most the `n`th power of the base.
abbrev pub AtMost : ℕ → ℕ → ℕ → ℕ → Type 0
AtMost one base x n = x * one ^ n ≤ base ^ n * one

module _ (one base : ℕ) (positive : 0 < one) where
  pub AtMost-mul :
      (x y n m : ℕ)
      → AtMost one base x n
      → AtMost one base y m
      → AtMost one base (x * y / one) (n + m)
  AtMost-mul x y n m hx hy =
      let q = x * y / one in
      let floor : q * one ≤ x * y = div-mul-le_self (x * y) one in
      let both : x * one ^ n * (y * one ^ m) ≤ base ^ n * one * (base ^ m * one) =
        mul-le-mul hx hy in
      let raised : q * one * (one ^ n * one ^ m) ≤ x * y * (one ^ n * one ^ m) =
        mul-le-mul_right (one ^ n * one ^ m) floor in
      le_of_mul-le-mul_right
        (rw (pow_plus one n m, pow_plus base n m)
          (omega (
            arith,
            raised,
            both,
            mul-mul-mul_comm x y (one ^ n) (one ^ m),
            mul-mul-mul_comm (base ^ n) one (base ^ m) one,
            swap_last q one (one ^ n * one ^ m),
            mul_assoc (base ^ n * base ^ m) one one,
          )))
        positive

  pub AtMost-base : AtMost one base base 1
  AtMost-base = rw (pow_one one, pow_one base) (omega arith)

  pub AtMost-one : AtMost one base one 0
  AtMost-one = rw (pow-zero one, pow-zero base) (omega arith)

bit_of : (q : ℕ) → (q % 2 ≡ 0) ⊎ (q % 2 ≡ 1)
bit_of q = ground arith

skipped : (n b : ℕ) → n + b * 0 ≡ n
skipped n b = omega arith

added : (n b : ℕ) → n + b * 1 ≡ n + b
added n b = omega arith

double_mod : (n b : ℕ) → 0 < b → n % (b * 2) ≡ n % b + b * ((n / b) % 2)
double_mod n b h =
    let q = n / b in
    let low : n % b + b * (q % 2) < b * 2 = elim (bit_of q) [
      | inl z ↦ rw z (omega (arith, mod-lt n h))
      | inr o ↦ rw o (omega (arith, mod-lt n h))
    ] in
    let split : n ≡ n % b + b * (q % 2) + b * 2 * (q / 2) = omega (
      arith,
      mod-add-div n b,
      ap (λ k. b * k) (mod-add-div q 2),
      mul-add b (q % 2) (2 * (q / 2)),
      mul_assoc b 2 (q / 2),
    ) in
    ap (λ k. k % (b * 2)) split
    ∙ add-mul-mod_self_left (n % b + b * (q % 2)) (b * 2) (q / 2)
    ∙ mod-eq_of_lt low

pub and_then-some :
    {B : Type 0} (o : Option ℕ) (next : ℕ → Option B) {b : B}
    → and_then o next ≡ some b
    → (a : ℕ) × (o ≡ some a) × (next a ≡ some b)
and_then-some none next e = ground arith
and_then-some (some a) next e = (a, refl, e)

scaled_some :
    (a b r : ℕ)
    → and_then (checked_mul 128 a b) (λ n. some (n / one_q64)) ≡ some r
    → r ≡ a * b / one_q64
unfolding checked_mul
scaled_some a b r e = ground arith

pub some_inj : {A : Type 0} {a b : A} → some a ≡ some b → a ≡ b
some_inj {a = a} e = ap (get_or a) e

module _ (base : ℕ) where
  AtMost-square :
      (x n bit : ℕ)
      → checked_mul 128 x x ≡ some n
      → AtMost one_q64 base x bit
      → AtMost one_q64 base (n / one_q64) (bit * 2)
  unfolding checked_mul
  AtMost-square x n bit e h =
      let same : n ≡ x * x = ground arith in
      let twice : bit * 2 ≡ bit + bit = omega arith in
      rw (same, twice) (AtMost-mul one_q64 base (omega arith) x x bit bit h h)

  multiplied-AtMost :
      (exp bit squared result r : ℕ)
      → 0 < bit
      → AtMost one_q64 base squared bit
      → AtMost one_q64 base result (exp % bit)
      → multiplied exp bit squared result ≡ some r
      → AtMost one_q64 base r (exp % (bit * 2))
  multiplied-AtMost exp bit squared result r b s h e = elim (bit_of (exp / bit)) [
    | inl z ↦
        let same : result ≡ r = some_inj (rw z at e) in
        rw (double_mod exp bit b, z, ← same, skipped (exp % bit) bit) h
    | inr o ↦
        let same = scaled_some result squared r (rw o at e) in
        rw (double_mod exp bit b, o, same, added (exp % bit) bit)
          (AtMost-mul one_q64 base (omega arith) result squared (exp % bit) bit h s)
  ]

  -- The result of the loop on an exponent below its bound.
  pub loop-AtMost :
      (fuel exp bit squared result r : ℕ)
      → 0 < bit
      → exp < max_exponential
      → AtMost one_q64 base squared bit
      → AtMost one_q64 base result (exp % bit)
      → pow_loop fuel exp bit squared result ≡ some r
      → AtMost one_q64 base r exp
  unfolding pow_loop
  loop-AtMost zero exp bit squared result r b w s h e = ground arith
  loop-AtMost (suc fuel) exp bit squared result r b w s h e =
      let (q, eq, rest) = and_then-some (multiplied exp bit squared result) _ e in
      let step = multiplied-AtMost exp bit squared result q b s h eq in
      elim (Bool-cases (leb max_exponential (bit * 2))) [
        | inl last ↦
            let same : q ≡ r = some_inj (rw last at rest) in
            let whole : exp % (bit * 2) ≡ exp = mod-eq_of_lt (ground arith) in
            rw (← same) (rw whole at step)
        | inr more ↦
            let (n, en, rest') =
              and_then-some (checked_mul 128 squared squared) _ (rw more at rest) in
            loop-AtMost fuel exp (bit * 2) (n / one_q64) q r (omega arith) w
              (AtMost-square squared n bit en s) step rest'
      ]
