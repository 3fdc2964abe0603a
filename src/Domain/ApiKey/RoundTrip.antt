-- ===== src/Domain/ApiKey/RoundTrip.antt =====
-- Parsing a key of crates/core/src/domain/auth/api_key after writing it.
use yog_sothoth.Prelude.{
  ℕ, ◌*◌, ◌/◌, ◌%◌, ◌<◌, ◌≡◌, refl, ◌∙◌, Bool, true, false, ◌&&◌, some, [], ◌∷◌, ◌++◌, ◌==◌, length,
  arith, All,
}
use yog_sothoth.Domain.Protocols.{ok}
use yog_sothoth.Domain.ApiKey.{
  Bytes, marker, underscore, hex_digit, lower_hex, is_lower_hex, all, from_random, strip_prefix,
  split_once, parse,
}

abbrev pub AreBytes : Bytes → Type 0
AreBytes = All (λ b. b < 256)

length-lower_hex : (bs : Bytes) → length (lower_hex bs) ≡ length bs * 2
unfolding lower_hex
length-lower_hex [] = refl
length-lower_hex (b ∷ bs) = omega (arith, length-lower_hex bs)

hex_digit-is_lower_hex : (d : ℕ) → d < 16 → is_lower_hex (hex_digit d) ≡ true
hex_digit-is_lower_hex d h = ground arith

pub all-append : (p : ℕ → Bool) (xs ys : Bytes) → all p (xs ++ ys) ≡ (all p xs && all p ys)
all-append p [] ys = refl
all-append p (x ∷ xs) ys = ground (arith, all-append p xs ys)

all-lower_hex : (bs : Bytes) → AreBytes bs → all is_lower_hex (lower_hex bs) ≡ true
unfolding lower_hex
all-lower_hex [] h = refl
all-lower_hex (b ∷ bs) h =
    rw
      (hex_digit-is_lower_hex (b / 16) (omega arith), hex_digit-is_lower_hex (b % 16) (omega arith))
      (all-lower_hex bs h.1)

-- A lowercase hex digit is no underscore, so the first one ends the prefix.
pub split_once-hex :
    (p s : Bytes)
    → all is_lower_hex p ≡ true
    → split_once (λ b. b == underscore) (p ++ underscore ∷ s) ≡ some (p, s)
unfolding split_once
split_once-hex [] s h = refl
split_once-hex (b ∷ p) s h =
    let own : (b == underscore) ≡ false = ground arith in
    let rest : all is_lower_hex p ≡ true = ground arith in rw (own, split_once-hex p s rest)

pub strip_prefix-marker : (text : Bytes) → strip_prefix marker (marker ++ text) ≡ some text
unfolding strip_prefix
strip_prefix-marker text = refl

-- A text of the marker, eight lowercase hex digits, an underscore and sixty-four of them is a key.
pub parse_accepts :
    (p s : Bytes)
    → length p ≡ 8
    → length s ≡ 64
    → all is_lower_hex (p ++ s) ≡ true
    → all is_lower_hex p ≡ true
    → parse (marker ++ (p ++ underscore ∷ s))
      ≡ ok (record { text = marker ++ (p ++ underscore ∷ s) })
unfolding parse
parse_accepts p s hp hs h hex = rw (split_once-hex p s hex, hp, hs, h)

-- A key made of four and thirty-two random bytes parses back to itself.
pub parse-from_random :
    (prefix secret : Bytes)
    → length prefix ≡ 4
    → length secret ≡ 32
    → AreBytes prefix
    → AreBytes secret
    → parse (from_random prefix secret).text ≡ ok (from_random prefix secret)
unfolding from_random
parse-from_random prefix secret hp hs bp bs =
    let hex = all-lower_hex prefix bp in
    parse_accepts (lower_hex prefix) (lower_hex secret) (omega (arith, length-lower_hex prefix))
      (omega (arith, length-lower_hex secret))
      (all-append is_lower_hex (lower_hex prefix) (lower_hex secret)
        ∙ (rw (hex, all-lower_hex secret bs)))
      hex
