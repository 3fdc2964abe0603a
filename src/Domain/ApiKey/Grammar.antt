-- ===== src/Domain/ApiKey/Grammar.antt =====
-- The texts that crates/core/src/domain/auth/api_key takes for keys.
use yog_sothoth.Prelude.{
  ℕ, ◌≡◌, ◌↔◌, refl, ap, ◌∙◌, true, Option, none, some, [], ◌∷◌, ◌++◌, ◌==◌, ==_iff, length, arith,
  Bool-cases, inl, inr,
}
use yog_sothoth.Domain.Protocols.{ok}
use yog_sothoth.Domain.ApiKey.{
  Bytes, ApiKey, marker, underscore, is_lower_hex, all, strip_prefix, split_once, before_rest,
  check_rest, check_parts, parse,
}
use yog_sothoth.Domain.ApiKey.RoundTrip.{parse_accepts, all-append}

-- The marker, eight lowercase hex digits, an underscore and sixty-four of them.
abbrev pub IsKeyText : Bytes → Type 0
IsKeyText text =
    (p : Bytes) × (s : Bytes) × (text ≡ marker ++ (p ++ underscore ∷ s))
    × (length p ≡ 8)
    × (length s ≡ 64)
    × (all is_lower_hex (p ++ s) ≡ true)

strip_prefix-some : (m text rest : Bytes) → strip_prefix m text ≡ some rest → text ≡ m ++ rest
unfolding strip_prefix
strip_prefix-some [] text rest h = ground arith
strip_prefix-some (m ∷ ms) [] rest h = cc
strip_prefix-some (m ∷ ms) (b ∷ text) rest h =
    ground (arith, strip_prefix-some ms text rest, ==_iff m b)

before_rest-some :
    (b : ℕ) (o : Option (Bytes × Bytes)) (p s : Bytes)
    → before_rest b o ≡ some (p, s)
    → (q : Bytes) × (o ≡ some (q, s)) × (p ≡ b ∷ q)
before_rest-some b none p s h = absurd (cc)
before_rest-some b (some (q, r)) p s h = (q, ground arith, ground arith)

split_once-some :
    (text p s : Bytes)
    → split_once (λ b. b == underscore) text ≡ some (p, s)
    → text ≡ p ++ underscore ∷ s
unfolding split_once
split_once-some [] p s h = cc
split_once-some (b ∷ bs) p s h = elim (Bool-cases (b == underscore)) [
  | inl at ↦
      let same : b ≡ underscore = (==_iff b underscore).0 at in
      let here : ◌≡◌ {A = Option (Bytes × Bytes)} (some ([], bs)) (some (p, s)) = rw at at h in
      ground arith
  | inr past ↦
      let later : before_rest b (split_once (λ c. c == underscore) bs) ≡ some (p, s) =
        rw past at h in
      let (q, tail, same) = before_rest-some b (split_once (λ c. c == underscore) bs) p s later in
      let rest = split_once-some bs q s tail in rw (same, rest)
]

check_parts-ok :
    (text p s : Bytes) (k : ApiKey)
    → check_parts text (some (p, s)) ≡ ok k
    → (length p ≡ 8) × (length s ≡ 64) × (all is_lower_hex (p ++ s) ≡ true) × (k.text ≡ text)
check_parts-ok text p s k h = (ground arith, ground arith, ground arith, ground arith)

parts-ok :
    (text rest : Bytes) (k : ApiKey) (o : Option (Bytes × Bytes))
    → text ≡ marker ++ rest
    → split_once (λ b. b == underscore) rest ≡ o
    → check_parts text o ≡ ok k
    → IsKeyText text × (k.text ≡ text)
parts-ok text rest k none e split h = absurd (cc)
parts-ok text rest k (some (p, s)) e split h =
    let (eight, sixty_four, hex, own) = check_parts-ok text p s k h in
    (
      (p, s, e ∙ ap (λ r. marker ++ r) (split_once-some rest p s split), eight, sixty_four, hex),
      own,
    )

rest-ok :
    (text : Bytes) (k : ApiKey) (o : Option Bytes)
    → strip_prefix marker text ≡ o
    → check_rest text o ≡ ok k
    → IsKeyText text × (k.text ≡ text)
rest-ok text k none strip h = absurd (cc)
rest-ok text k (some rest) strip h =
    parts-ok text rest k (split_once (λ b. b == underscore) rest)
      (strip_prefix-some marker text rest strip) refl h

all-left : (p s : Bytes) → all is_lower_hex (p ++ s) ≡ true → all is_lower_hex p ≡ true
all-left p s h = ground (arith, all-append is_lower_hex p s)

-- A text is parsed as a key exactly if it is the marker, eight lowercase hex digits, an underscore
-- and sixty-four lowercase hex digits, and the key is then that text.
pub parse_iff :
    (text : Bytes)
    → ((parse text ≡ ok (record { text = text })) ↔ IsKeyText text)
      × ((k : ApiKey) → parse text ≡ ok k → k.text ≡ text)
unfolding parse
parse_iff text =
    let sound =
      λ (k : ApiKey) (h : parse text ≡ ok k). rest-ok text k (strip_prefix marker text) refl h in
    (
      (
        (λ h. (sound (record { text = text }) h).0),
        (λ key.
            let (p, s, same, eight, sixty_four, hex) = key in
            rw same (parse_accepts p s eight sixty_four hex (all-left p s hex))),
      ),
      (λ k h. (sound k h).1),
    )
