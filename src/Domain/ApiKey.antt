-- ===== src/Domain/ApiKey.antt =====
-- crates/core/src/domain/auth/api_key: the key that a client presents, as the bytes of its text. SHA-256
-- is a parameter of what uses it.
pub mod RoundTrip
pub mod Grammar
use yog_sothoth.Prelude.{
  ℕ, zero, suc, ◌+◌, ◌-◌, ◌*◌, ◌/◌, ◌%◌, ◌≡◌, Bool, true, false, ◌&&◌, ◌||◌, not, Option, none,
  some, List, [], ◌∷◌, ◌++◌, ltb, leb, ◌==◌, length, if◌then◌else◌,
}
use yog_sothoth.Domain.Protocols.{Result, ok, err}

abbrev pub Bytes : Type 0
Bytes = List ℕ

abbrev pub api_key_prefix_bytes : ℕ
api_key_prefix_bytes = 4

abbrev pub api_key_secret_bytes : ℕ
api_key_secret_bytes = 32

-- `yog_`.
abbrev pub marker : Bytes
marker = b'y' ∷ b'o' ∷ b'g' ∷ b'_' ∷ []

abbrev pub underscore : ℕ
underscore = b'_'

pub data ApiKeyFormatError : Type 0 where
  no_marker : ApiKeyFormatError
  parts : ApiKeyFormatError
  prefix_length : ApiKeyFormatError
  secret_length : ApiKeyFormatError
  not_lower_hex : ApiKeyFormatError

pub record ApiKey : Type 0 where
  pub text : Bytes

-- One digit of `{b:02x}`.
abbrev pub hex_digit : ℕ → ℕ
hex_digit d = if ltb d 10 then b'0' + d else b'a' + d - 10

unfoldable pub lower_hex : Bytes → Bytes
lower_hex [] = []
lower_hex (b ∷ bs) = hex_digit (b / 16) ∷ hex_digit (b % 16) ∷ lower_hex bs

abbrev pub is_lower_hex : ℕ → Bool
is_lower_hex byte = leb b'0' byte && leb byte b'9' || leb b'a' byte && leb byte b'f'

abbrev pub all : (ℕ → Bool) → Bytes → Bool
all p [] = true
all p (b ∷ bs) = p b && all p bs

unfoldable pub from_random : Bytes → Bytes → ApiKey
unfolding lower_hex
from_random prefix secret = record {
  text = marker ++ (lower_hex prefix ++ underscore ∷ lower_hex secret);
}

-- `strip_prefix`.
unfoldable pub strip_prefix : Bytes → Bytes → Option Bytes
strip_prefix [] text = some text
strip_prefix (m ∷ ms) [] = none
strip_prefix (m ∷ ms) (b ∷ text) = if m == b then strip_prefix ms text else none

abbrev pub before_rest : ℕ → Option (Bytes × Bytes) → Option (Bytes × Bytes)
before_rest b none = none
before_rest b (some (prefix, rest)) = some (b ∷ prefix, rest)

-- `split_once`.
unfoldable pub split_once : (ℕ → Bool) → Bytes → Option (Bytes × Bytes)
split_once at [] = none
split_once at (b ∷ bs) =
    let later = before_rest b (split_once at bs) in if at b then some ([], bs) else later

abbrev pub check_parts : Bytes → Option (Bytes × Bytes) → Result ApiKeyFormatError ApiKey
check_parts text none = err parts
check_parts text (some (prefix, secret)) =
    if not (length prefix == api_key_prefix_bytes * 2)
    then err prefix_length
    else if not (length secret == api_key_secret_bytes * 2)
    then err secret_length
    else if not (all is_lower_hex (prefix ++ secret))
    then err not_lower_hex
    else ok (record { text = text })

abbrev pub check_rest : Bytes → Option Bytes → Result ApiKeyFormatError ApiKey
check_rest text none = err no_marker
check_rest text (some rest) = check_parts text (split_once (λ b. b == underscore) rest)

unfoldable pub parse : Bytes → Result ApiKeyFormatError ApiKey
unfolding strip_prefix split_once
parse text = check_rest text (strip_prefix marker text)
