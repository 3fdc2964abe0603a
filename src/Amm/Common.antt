-- ===== src/Amm/Common.antt =====
-- crates/core/src/amm/common.rs: constant-product formulas over total reserves, in `u128`.
use yog_sothoth.Prelude.{ℕ, ◌-◌, ◌/◌, ◌%◌, ◌^◌, Option, none, some, ◌==◌, if◌then◌else◌}
use yog_sothoth.Prelude.Machine.{checked_add, checked_mul, checked_shl, abs_diff}
use Prim.Native.String.{String}
use yog_sothoth.Domain.Protocols.{Result, ok, err}
use yog_sothoth.Domain.Errors.{CoreError, arithmetic_overflow}

-- A call returns, or panics on a division by zero.
pub data Call (A : Type 0) : Type 0 where
  returns : Result CoreError A → Call A
  panics : Call A

abbrev pub overflow : String → {A : Type 0} → Result CoreError A
overflow context = err (arithmetic_overflow context)

-- `checked_..(..).ok_or_else(..)?`.
abbrev pub or_overflow :
    {A : Type 0} → String → Option ℕ → (ℕ → Result CoreError A) → Result CoreError A
or_overflow context none next = overflow context
or_overflow context (some n) next = next n

abbrev pub or_overflow_call : {A : Type 0} → String → Option ℕ → (ℕ → Call A) → Call A
or_overflow_call context none next = returns (overflow context)
or_overflow_call context (some n) next = next n

abbrev pub or_return : {A : Type 0} → Result CoreError ℕ → (ℕ → Call A) → Call A
or_return (err e) next = returns (err e)
or_return (ok n) next = next n

unfoldable pub spot_price : ℕ → ℕ → Result CoreError ℕ
spot_price reserve_a reserve_b =
    if reserve_a == 0
    then overflow "spot_price: reserve_a is zero"
    else or_overflow "spot_price: reserve_b << 64 overflows u128" (checked_shl 128 reserve_b 64)
        (λ numerator. ok (numerator / reserve_a))

-- `impact_bps as u32`, after the division by the price before.
abbrev pub impact_of : ℕ → ℕ → Call ℕ
impact_of scaled price_before =
    if price_before == 0 then panics else returns (ok ((scaled / price_before) % 2 ^ 32))

-- From the two prices on.
abbrev pub impact_between : ℕ → ℕ → Call ℕ
impact_between price_before price_after =
    or_overflow_call "price_impact: delta * 10_000 overflows"
      (checked_mul 128 (price_before - price_after) 10_000)
      (λ scaled. impact_of scaled price_before)

-- From the reserves after the swap on.
abbrev pub impact_at : ℕ → ℕ → ℕ → Call ℕ
impact_at price_before reserve_a_after k =
    or_return (spot_price reserve_a_after (k / reserve_a_after)) (impact_between price_before)

-- The product of the reserves, once the reserve that grows is known.
abbrev pub impact_product : ℕ → ℕ → ℕ → ℕ → Call ℕ
impact_product reserve_a reserve_b price_before reserve_a_after =
    or_overflow_call "price_impact: reserve_a * reserve_b overflows"
      (checked_mul 128 reserve_a reserve_b) (impact_at price_before reserve_a_after)

unfoldable pub price_impact : ℕ → ℕ → ℕ → Call ℕ
price_impact reserve_a reserve_b amount_in =
    or_return (spot_price reserve_a reserve_b) (λ price_before.
      or_overflow_call "price_impact: reserve_a + amount_in overflows"
        (checked_add 128 reserve_a amount_in) (impact_product reserve_a reserve_b price_before))

unfoldable pub imbalance : ℕ → ℕ → Result CoreError ℕ
imbalance reserve_a reserve_b =
    or_overflow "imbalance: reserve_a + reserve_b overflows" (checked_add 128 reserve_a reserve_b)
      (λ total.
        if total == 0
        then overflow "imbalance: total reserves are zero"
        else or_overflow "imbalance: diff * 10_000 overflows"
            (checked_mul 128 (abs_diff reserve_a reserve_b) 10_000)
            (λ scaled. ok ((scaled / total) % 2 ^ 32)))
