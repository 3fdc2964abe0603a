-- ===== src/Domain/Protocols.antt =====
-- crates/core/src/domain/protocol/model.rs: the protocols indexed. An address is a number; the two
-- program ids are base-58 constants of the source, taken as a parameter.
use yog_sothoth.Prelude.{
  ℕ, ◌≡◌, ◌≢◌, refl, Option, none, some, List, [], ◌∷◌, arith, ◌==◌, if◌then◌else◌,
}
use Prim.Native.String.{String}
use text.Mathlib.Text.{◌==◌ as str_eq}

pub data Protocol : Type 0 where
  meteora_damm_v2 : Protocol
  meteora_dlmm : Protocol

pub data Result (E A : Type 0) : Type 0 where
  ok : A → Result E A
  err : E → Result E A

pub Protocol-discrete : Discrete Protocol
Protocol-discrete = hlevel

-- `UnknownProgram` quotes the text.
pub record UnknownProgram : Type 0 where
  pub program : String

unfoldable pub all : List Protocol
all = meteora_damm_v2 ∷ meteora_dlmm ∷ []

unfoldable pub as_str : Protocol → String
as_str meteora_damm_v2 = "meteora_damm_v2"
as_str meteora_dlmm = "meteora_dlmm"

unfoldable pub from_str : String → Result UnknownProgram Protocol
from_str s =
    if str_eq s "meteora_damm_v2"
    then ok meteora_damm_v2
    else if str_eq s "meteora_dlmm"
    then ok meteora_dlmm
    else err (record { program = s })

-- A tag reads back as the protocol it names.
pub from_str-as_str : (p : Protocol) → from_str (as_str p) ≡ ok p
unfolding from_str as_str
from_str-as_str meteora_damm_v2 = refl
from_str-as_str meteora_dlmm = refl

module _ (program_id : Protocol → ℕ) where
  find_program : ℕ → List Protocol → Option Protocol
  find_program id [] = none
  find_program id (p ∷ ps) = if program_id p == id then some p else find_program id ps

  unfoldable pub from_program_id : ℕ → Option Protocol
  unfolding find_program all
  from_program_id id = find_program id all

  -- Where the two ids differ, each id reads back as its protocol.
  pub from_program_id-program_id :
      program_id meteora_damm_v2 ≢ program_id meteora_dlmm
      → (p : Protocol) → from_program_id (program_id p) ≡ some p
  unfolding from_program_id
  from_program_id-program_id differ meteora_damm_v2 = ground arith
  from_program_id-program_id differ meteora_dlmm = ground arith
