-- ===== src/Amm/Impact.antt =====
-- Bounds on the results of crates/core/src/amm/common.rs, and where they go wrong.
use yog_sothoth.Prelude.{
  ℕ, ◌+◌, ◌-◌, ◌*◌, ◌/◌, ◌%◌, ◌^◌, ◌≤◌, ◌<◌, ◌≡◌, ◌≢◌, refl, Option, none, some, arith,
}
use yog_sothoth.Prelude.Machine.{checked_add, checked_mul, checked_shl, abs_diff, fits}
use yog_sothoth.Domain.Protocols.{Result, ok, err}
use yog_sothoth.Domain.Errors.{CoreError}
use yog_sothoth.Amm.Common.{
  Call, returns, panics, spot_price, price_impact, imbalance, or_return, or_overflow_call,
  impact_of, impact_between, impact_at, impact_product,
}
use Prim.Native.String.{String}
use native.Mathlib.Nat.{div-le_of_le-mul}

share_le : (d t : ℕ) → d ≤ t → t ≢ 0 → (d * 10_000) / t ≤ 10_000
share_le d t h ne = div-le_of_le-mul t (omega arith)

-- Where the imbalance is given, it is the difference of the reserves as a share of their sum in
-- basis points, rounded down, and at most 10 000: the conversion to u32 cuts nothing off.
pub imbalance_share :
    (a b r : ℕ) → imbalance a b ≡ ok r → (r ≡ (abs_diff a b * 10_000) / (a + b)) × (r ≤ 10_000)
unfolding imbalance checked_add checked_mul
imbalance_share a b r e = ground (arith, share_le (abs_diff a b) (a + b))

-- A call that gives at most 10 000, if anything.
abbrev Bounded : Call ℕ → Type 0
Bounded c = (r : ℕ) → c ≡ returns (ok r) → r ≤ 10_000

or_return-Bounded :
    (x : Result CoreError ℕ) (next : ℕ → Call ℕ)
    → ((n : ℕ) → Bounded (next n))
    → Bounded (or_return x next)
or_return-Bounded (err e) next h r eq = ground arith
or_return-Bounded (ok n) next h r eq = h n r eq

or_overflow-Bounded :
    (context : String) (o : Option ℕ) (next : ℕ → Call ℕ)
    → ((n : ℕ) → (o ≡ some n) → Bounded (next n))
    → Bounded (or_overflow_call context o next)
or_overflow-Bounded context none next h r eq = ground arith
or_overflow-Bounded context (some n) next h r eq = h n refl r eq

impact-Bounded :
    (delta before scaled : ℕ)
    → delta ≤ before
    → checked_mul 128 delta 10_000 ≡ some scaled
    → Bounded (impact_of scaled before)
unfolding checked_mul
impact-Bounded delta before scaled le e r eq = ground (arith, share_le delta before)

-- A price impact that is given is at most 10 000 basis points.
pub price_impact_bounded : (a b x r : ℕ) → price_impact a b x ≡ returns (ok r) → r ≤ 10_000
unfolding price_impact
price_impact_bounded a b x = or_return-Bounded (spot_price a b) _ (λ before.
    or_overflow-Bounded "price_impact: reserve_a + amount_in overflows" (checked_add 128 a x)
      (impact_product a b before)
      (λ a' _.
        or_overflow-Bounded "price_impact: reserve_a * reserve_b overflows" (checked_mul 128 a b)
          (impact_at before a')
          (λ k _. or_return-Bounded (spot_price a' (k / a')) (impact_between before) (λ after.
            or_overflow-Bounded "price_impact: delta * 10_000 overflows"
              (checked_mul 128 (before - after) 10_000) (λ scaled. impact_of scaled before)
              (λ scaled e. impact-Bounded (before - after) before scaled (omega arith) e)))))

-- The price does not change when a multiple of 2 ^ 64 is added to the reserve that is priced in: its
-- high bits are lost, and no error says so.
pub spot_price_wraps : (a b k : ℕ) → spot_price a (b + k * 2 ^ 64) ≡ spot_price a b
unfolding spot_price checked_shl
spot_price_wraps a b k = ground arith

-- The price, where the reserve that is priced is not zero.
spot_price_of : (a b : ℕ) → a ≢ 0 → spot_price a b ≡ ok ((b * 2 ^ 64) % 2 ^ 128 / a)
unfolding spot_price checked_shl
spot_price_of a b h = ground arith

fits-some : (n : ℕ) → n < 2 ^ 128 → fits 128 n ≡ some n
fits-some n h = ground arith

impact_between_zero : (p : ℕ) → impact_between 0 p ≡ panics
unfolding checked_mul
impact_between_zero p = let none_left : 0 - p ≡ 0 = omega arith in rw none_left refl

-- Where the price before is zero and neither the sum nor the product overflows, a price impact
-- divides by zero.
pub price_impact_panics :
    (a b x : ℕ)
    → spot_price a b ≡ ok 0
    → a ≢ 0
    → a + x < 2 ^ 128
    → a * b < 2 ^ 128
    → price_impact a b x ≡ panics
unfolding price_impact checked_add checked_mul
price_impact_panics a b x z ne s k =
    rw
      (
        z,
        fits-some (a + x) s,
        fits-some (a * b) k,
        spot_price_of (a + x) (a * b / (a + x)) (ground arith),
      )
      (impact_between_zero (a * b / (a + x) * 2 ^ 64 % 2 ^ 128 / (a + x)))
