-- ===== src/Api/Auth.antt =====
-- crates/api/src/application/auth: the client that a credential names, and the keys held in memory.
--
-- A credential is the bytes of a header's text, which is ASCII. SHA-256 is a parameter, and what each
-- read of the keys brings comes from outside.
pub mod Accepted
use yog_sothoth.Prelude.{
  ℕ, ◌+◌, ◌≡◌, Bool, true, false, ◌&&◌, ◌||◌, Option, none, some, List, [], ◌∷◌, leb, ◌==◌,
  if◌then◌else◌,
}
use yog_sothoth.Prelude.Map.{Map, get, insert}
use yog_sothoth.Domain.Protocols.{Result, ok, err}
use yog_sothoth.Domain.ApiKey
use yog_sothoth.Domain.ApiKey.{Bytes, ApiKey, ApiKeyFormatError, split_once, all}

pub record ApiClient : Type 0 where
  pub id : ℕ
  pub name : Bytes

pub record ActiveKey : Type 0 where
  pub hash : ℕ
  pub client : ApiClient

pub data Unauthorized : Type 0 where
  scheme : Unauthorized
  malformed : Unauthorized
  unknown : Unauthorized

pub data ReloadOutcome : Type 0 where
  reloaded : ReloadOutcome
  failed : ReloadOutcome

-- What `trim` takes off, and what `is_ascii_whitespace` is: the first has the vertical tab too.
abbrev pub is_ascii_whitespace : ℕ → Bool
is_ascii_whitespace b = b == 32 || (b == 9 || (b == 10 || (b == 12 || b == 13)))

abbrev pub is_whitespace : ℕ → Bool
is_whitespace b = is_ascii_whitespace b || b == 11

unfoldable pub trim_start : Bytes → Bytes
trim_start [] = []
trim_start (b ∷ bs) = if is_whitespace b then trim_start bs else b ∷ bs

unfoldable pub trim_end : Bytes → Bytes
trim_end [] = []
trim_end (b ∷ bs) = if all is_whitespace (b ∷ bs) then [] else b ∷ trim_end bs

unfoldable pub trim : Bytes → Bytes
unfolding trim_start trim_end
trim value = trim_end (trim_start value)

abbrev to_lower : ℕ → ℕ
to_lower b = if leb b'A' b && leb b b'Z' then b + 32 else b

unfoldable pub eq_ignore_ascii_case : Bytes → Bytes → Bool
eq_ignore_ascii_case [] [] = true
eq_ignore_ascii_case (a ∷ as') (b ∷ bs) = to_lower a == to_lower b && eq_ignore_ascii_case as' bs
eq_ignore_ascii_case _ _ = false

abbrev pub bearer_scheme : Bytes
bearer_scheme = b'b' ∷ b'e' ∷ b'a' ∷ b'r' ∷ b'e' ∷ b'r' ∷ []

-- `split_once(…).unwrap_or((value, ""))`.
abbrev pub or_whole : Bytes → Option (Bytes × Bytes) → Bytes × Bytes
or_whole value none = (value, [])
or_whole value (some parts) = parts

unfoldable pub bearer : Bytes → Option Bytes
unfolding trim eq_ignore_ascii_case
bearer value =
    let trimmed = trim value in
    let parts = or_whole trimmed (split_once is_ascii_whitespace trimmed) in
    if eq_ignore_ascii_case parts.0 bearer_scheme then some (trim parts.1) else none

abbrev pub Keys : Type 0
Keys = Map ApiClient

unfoldable pub by_hash : List ActiveKey → Keys → Keys
by_hash [] keys = keys
by_hash (k ∷ ks) keys = by_hash ks (insert k.hash k.client keys)

-- A read of the keys, and what the ring holds after it.
unfoldable pub reload : {E : Type 0} → Result E (List ActiveKey) → Keys → Keys × ReloadOutcome
reload (ok keys) ring = (by_hash keys [], reloaded)
reload (err e) ring = (ring, failed)

unfoldable pub reload_all : {E : Type 0} → List (Result E (List ActiveKey)) → Keys → Keys
unfolding reload
reload_all [] ring = ring
reload_all (read ∷ reads) ring = reload_all reads (reload read ring).0

module _ (sha256 : Bytes → ℕ) where
  unfoldable pub client_of : Keys → ApiKey → Option ApiClient
  client_of ring key = get (sha256 key.text) ring

  abbrev pub known : Option ApiClient → Result Unauthorized ApiClient
  known none = err unknown
  known (some client) = ok client

  abbrev pub of_key : Keys → Result ApiKeyFormatError ApiKey → Result Unauthorized ApiClient
  of_key ring (err e) = err malformed
  of_key ring (ok key) = known (client_of ring key)

  abbrev pub of_token : Keys → Option Bytes → Result Unauthorized ApiClient
  of_token ring none = err scheme
  of_token ring (some token) = of_key ring (ApiKey.parse token)

  unfoldable pub identify : Bytes → Keys → Result Unauthorized ApiClient
  unfolding bearer
  identify credential ring = of_token ring (bearer credential)
