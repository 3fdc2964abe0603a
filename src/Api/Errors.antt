-- ===== src/Api/Errors.antt =====
-- crates/api/src/http/error.rs: what a handler answers with when it refuses, and how each error is
-- served as a problem document.
use Prim.Native.String.{String}
use yog_sothoth.Prelude.{ℕ, Option, none, some}
use yog_sothoth.Domain.Protocols.{Result, ok, err}

pub data ApiError : Type 0 where
  bad_request : String → ApiError
  unauthorized : ApiError
  not_found : String → ApiError
  unavailable : String → ApiError
  internal : String → ApiError
  framework : ℕ → String → ApiError

infixl 5 ◌>>=◌
abbrev pub ◌>>=◌ : {E A B : Type 0} → Result E A → (A → Result E B) → Result E B
ok a >>= f = f a
err e >>= f = err e

-- `ok_or_else`.
abbrev pub ok_or : {E A : Type 0} → E → Option A → Result E A
ok_or e none = err e
ok_or e (some a) = ok a
