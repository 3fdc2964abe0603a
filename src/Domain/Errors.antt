-- ===== src/Domain/Errors.antt =====
-- crates/core/src/error/core_error.rs.
use Prim.Native.String.{String}

pub data CoreError : Type 0 where
  unknown_program arithmetic_overflow fee_decode unsupported_instruction : String → CoreError
  parse_error invalid_account_data missing_field : String → String → CoreError
