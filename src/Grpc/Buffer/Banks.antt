-- ===== src/Grpc/Buffer/Banks.antt =====
-- crates/indexer/src/infra/grpc/slot_timestamp_buffer/bank.rs: which bank of a slot a message names.
use yog_sothoth.Prelude.{
  ℕ, ◌≡◌, refl, ◌↔◌, Bool, true, false, Option, none, some, arith, ◌==◌, ==_iff, ==_refl,
  if◌then◌else◌,
}

pub data Bank : Type 0 where
  id : ℕ → Bank
  unknown : Bank

-- 0 is "not sent": the wire field is a plain integer.
unfoldable pub from_wire : ℕ → Bank
from_wire n = if n == 0 then unknown else id n

unfoldable pub from_status : Option ℕ → Bank
unfolding from_wire
from_status none = unknown
from_status (some n) = from_wire n

unfoldable pub admits : Bank → Bank → Bool
admits (id kept) (id bank) = kept == bank
admits (id kept) unknown = true
admits unknown bank = true

-- The derived `PartialEq`.
unfoldable pub same_bank : Bank → Bank → Bool
same_bank (id a) (id b) = a == b
same_bank (id a) unknown = false
same_bank unknown (id b) = false
same_bank unknown unknown = true

pub same_bank_iff : (a b : Bank) → (same_bank a b ≡ true) ↔ (a ≡ b)
unfolding same_bank
same_bank_iff (id a) (id b) = ground (arith, ==_iff a b)
same_bank_iff (id a) unknown = ground arith
same_bank_iff unknown (id b) = ground arith
same_bank_iff unknown unknown = ground arith

-- A bank admits itself, and a named bank turns away exactly the banks of another name.
pub admits_self : (a : Bank) → admits a a ≡ true
unfolding admits
admits_self (id a) = ==_refl a
admits_self unknown = refl
