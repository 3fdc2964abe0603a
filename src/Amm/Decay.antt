-- ===== src/Amm/Decay.antt =====
-- The exponential schedule of crates/core/src/amm/damm_v2.rs: its fee against the exact curve, and the
-- rounds of the power's loop.
use yog_sothoth.Prelude.{
  ℕ, suc, zero, ◌+◌, ◌-◌, ◌*◌, ◌/◌, ◌%◌, ◌^◌, ◌≤◌, ◌<◌, ◌≡◌, ◌≢◌, refl, ap, subst, false,
  Bool-cases, inl, inr, Option, none, some, leb, ◌==◌, arith,
}
use yog_sothoth.Prelude.Machine.{checked_mul, checked_sub, checked_shl, checked_div}
use yog_sothoth.Amm.Fees.{
  one_q64, max_exponential, multiplied, pow_loop, pow_rounds, pow_from, pow_end, pow, fee_in_period,
  and_then, to_u64,
}
use yog_sothoth.Amm.Powers.{
  AtMost, AtMost-one, AtMost-base, and_then-some, some_inj, loop-AtMost, swap_last,
}
use native.Mathlib.Nat.{
  mul_assoc, mul-le-mul_right, le_of_mul-le-mul_right, div-mul-le_self, pow-succ',
}

pow_end-some : (q r : ℕ) → pow_end false q ≡ some r → q ≡ r
pow_end-some q r e = ground arith

-- The rounds of the loop, and what follows it.
from_loop :
    (base exp r : ℕ)
    → base < one_q64
    → exp < max_exponential
    → pow_from false base exp ≡ some r
    → AtMost one_q64 base r exp
from_loop base exp r h w e =
    let (q, eq, rest) = and_then-some (pow_loop pow_rounds exp 1 base one_q64) (pow_end false) e in
    let unit : exp % 1 ≡ 0 = omega arith in
    let start : AtMost one_q64 base one_q64 (exp % 1) =
      rw unit (AtMost-one one_q64 base (omega arith)) in
    let same = pow_end-some q r rest in
    rw (← same) (
      loop-AtMost base pow_rounds exp 1 base one_q64 q (omega arith) w
        (AtMost-base one_q64 base (omega arith)) start eq)

-- A power of a base below one is at most the exact one.
pow-AtMost :
    (base exp r : ℕ) → base < one_q64 → pow base false exp ≡ some r → AtMost one_q64 base r exp
unfolding pow
pow-AtMost base zero r h e =
    let same : one_q64 ≡ r = some_inj e in rw (← same) (AtMost-one one_q64 base (omega arith))
pow-AtMost base (suc exp) r h e = from_loop base (suc exp) r h (ground arith) (ground arith)

-- The factor of one period, in fixed point.
abbrev pub period_factor : ℕ → ℕ
period_factor reduction_factor = one_q64 - (reduction_factor * one_q64) / 10_000

scale_down :
    (f r cliff one_n base_n : ℕ)
    → f * one_q64 ≤ r * cliff
    → r * one_n ≤ base_n * one_q64
    → f * one_n ≤ base_n * cliff
scale_down f r cliff one_n base_n a b =
    let x = mul-le-mul_right one_n a in
    let y = mul-le-mul_right cliff b in
    le_of_mul-le-mul_right {k = one_q64}
      (omega (
        arith,
        x,
        y,
        swap_last f one_q64 one_n,
        swap_last r cliff one_n,
        swap_last base_n one_q64 cliff,
      ))
      (omega arith)

-- The last two steps: the product, and the cut to 64 bits.
abbrev last_steps : ℕ → ℕ → Option ℕ
last_steps cliff result =
    and_then (checked_mul 128 result cliff) (λ scaled. to_u64 (scaled / one_q64))

last_steps_le :
    (cliff result f : ℕ) → last_steps cliff result ≡ some f → f * one_q64 ≤ result * cliff
unfolding checked_mul
last_steps_le cliff result f e =
    let floor = div-mul-le_self (result * cliff) one_q64 in ground arith

shifted_lem :
    (reduction : ℕ) → reduction < 2 ^ 64 → checked_shl 128 reduction 64 ≡ some (reduction * one_q64)
unfolding checked_shl
shifted_lem reduction w = ap some (omega arith)

factor_lem :
    (reduction base : ℕ)
    → reduction ≢ 0
    → checked_sub one_q64 ((reduction * one_q64) / 10_000) ≡ some base
    → (base ≡ period_factor reduction) × (base < one_q64)
unfolding checked_sub
factor_lem reduction base ne e = ground arith

-- For a reduction that is not zero and fits 64 bits, the fee of a period, where it is given, is at
-- most the cliff times the exact power of the period's factor.
pub fee_in_period_below :
    (cliff reduction period f : ℕ)
    → reduction ≢ 0
    → reduction < 2 ^ 64
    → fee_in_period cliff reduction period ≡ some f
    → f * one_q64 ^ period ≤ period_factor reduction ^ period * cliff
unfolding fee_in_period checked_div
fee_in_period_below cliff reduction period f ne w e =
    let nonzero : (reduction == 0) ≡ false = ground arith in
    let bps = (reduction * one_q64) / 10_000 in
    let (base, eb, rest) =
      and_then-some (checked_sub one_q64 bps) _ (rw (nonzero, shifted_lem reduction w) at e) in
    let (result, er, last) = and_then-some (pow base false period) (last_steps cliff) rest in
    let (same, small) = factor_lem reduction base ne eb in
    scale_down f result cliff (one_q64 ^ period) (period_factor reduction ^ period)
      (last_steps_le cliff result f last)
      (subst (λ b. AtMost one_q64 b result period) same (pow-AtMost base period result small er))

and_then_cong :
    (o : Option ℕ) (f g : ℕ → Option ℕ) → ((a : ℕ) → f a ≡ g a) → and_then o f ≡ and_then o g
and_then_cong none f g h = refl
and_then_cong (some a) f g h = h a

some_left : (fuel n : ℕ) → n < max_exponential → max_exponential ≤ n * 2 ^ fuel → 1 ≤ fuel
some_left zero n lt le = omega arith
some_left (suc fuel) n lt le = omega arith

-- The loop of the power ends at its break: rounds beyond those that the bit has left change nothing.
pow_loop_enough :
    (fuel extra exp bit squared result : ℕ)
    → 1 ≤ fuel
    → max_exponential ≤ bit * 2 ^ fuel
    → pow_loop (fuel + extra) exp bit squared result ≡ pow_loop fuel exp bit squared result
unfolding pow_loop
pow_loop_enough zero extra exp bit squared result p h = ground arith
pow_loop_enough (suc fuel) extra exp bit squared result p h =
    let same : suc fuel + extra ≡ suc (fuel + extra) = omega arith in
    rw same (
      and_then_cong (multiplied exp bit squared result) _ _ (λ r.
        elim (Bool-cases (leb max_exponential (bit * 2))) [
          | inl last ↦ rw last refl
          | inr more ↦
              let left : bit * 2 < max_exponential = ground arith in
              let room : max_exponential ≤ bit * 2 * 2 ^ fuel =
                omega
                  (arith, h, ap (λ k. bit * k) (pow-succ' 2 fuel), mul_assoc bit 2 (2 ^ fuel)) in
              rw more (
                and_then_cong (checked_mul 128 squared squared) _ _ (λ s.
                  pow_loop_enough fuel extra exp (bit * 2) (s / one_q64) r
                    (some_left fuel (bit * 2) left room) room))
        ]))

-- The rounds given to the loop of the power are enough: with more, it gives the same.
pub pow_rounds_enough :
    (extra exp base : ℕ)
    → pow_loop (pow_rounds + extra) exp 1 base one_q64 ≡ pow_loop pow_rounds exp 1 base one_q64
pow_rounds_enough extra exp base =
    pow_loop_enough pow_rounds extra exp 1 base one_q64 (omega arith) (omega arith)
