-- ===== src/Prelude/Machine.antt =====
-- The checked operations of Rust's unsigned integers of `w` bits.
use Prim.Native.Nat.{ℕ, ◌+◌, ◌-◌, ◌*◌, ◌/◌, ◌%◌, ◌^◌}
use mathlib.Core.Option.{Option, none, some}
use yog_sothoth.Prelude.Tests.{if◌then◌else◌, ltb, leb, ◌==◌}

-- A result that fits, or none.
abbrev pub fits : ℕ → ℕ → Option ℕ
fits w n = if ltb n (2 ^ w) then some n else none

unfoldable pub checked_add : ℕ → ℕ → ℕ → Option ℕ
checked_add w a b = fits w (a + b)

unfoldable pub checked_mul : ℕ → ℕ → ℕ → Option ℕ
checked_mul w a b = fits w (a * b)

unfoldable pub checked_sub : ℕ → ℕ → Option ℕ
checked_sub a b = if leb b a then some (a - b) else none

unfoldable pub checked_div : ℕ → ℕ → Option ℕ
checked_div a b = if b == 0 then none else some (a / b)

-- None only where the shift is as wide as the type: the bits that are shifted out are lost.
unfoldable pub checked_shl : ℕ → ℕ → ℕ → Option ℕ
checked_shl w a s = if ltb s w then some ((a * 2 ^ s) % 2 ^ w) else none

abbrev pub abs_diff : ℕ → ℕ → ℕ
abs_diff a b = (a - b) + (b - a)
