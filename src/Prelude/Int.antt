-- ===== src/Prelude/Int.antt =====
-- `i64` and `i32`: a signed integer, under the library's names.
use yog_sothoth.Prelude.{ℕ}

-- `negsuc n` is -(n + 1).
pub data ℤ : Type 0 where
  pos : ℕ → ℤ
  negsuc : ℕ → ℤ
