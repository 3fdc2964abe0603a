-- ===== src/Api/Auth/Accepted.antt =====
-- The credentials that crates/api/src/application/auth accepts.
use yog_sothoth.Prelude.{
  ℕ, ◌≡◌, ◌↔◌, refl, ◌∙◌, sym, ap, Option, none, some, List, [], ◌∷◌, ◌==◌, if◌then◌else◌, arith,
}
use yog_sothoth.Prelude.Map.{get, insert, get-insert}
use yog_sothoth.Domain.Protocols.{Result, ok, err}
use yog_sothoth.Domain.ApiKey
use yog_sothoth.Domain.ApiKey.{Bytes, ApiKey, all, marker, underscore, is_lower_hex}
use yog_sothoth.Domain.ApiKey.Grammar.{IsKeyText, parse_iff}
use yog_sothoth.Api.Auth.{
  Keys, ApiClient, ActiveKey, bearer, identify, client_of, known, of_key, of_token, reload_all,
  by_hash,
}

-- The client of a hash among the keys read: the last one that has it.
abbrev pub or_else : {A : Type 0} → Option A → Option A → Option A
or_else (some a) other = some a
or_else none other = other

unfoldable pub client_in : ℕ → List ActiveKey → Option ApiClient
client_in h [] = none
client_in h (k ∷ ks) = or_else (client_in h ks) (if k.hash == h then some k.client else none)

-- The keys of the last read that did not fail, after those held before.
unfoldable pub last_read :
    {E : Type 0} → List (Result E (List ActiveKey)) → List ActiveKey → List ActiveKey
last_read [] held = held
last_read (ok keys ∷ reads) held = last_read reads keys
last_read (err e ∷ reads) held = last_read reads held

or_else_assoc : (a b c : Option ApiClient) → or_else (or_else a b) c ≡ or_else a (or_else b c)
or_else_assoc none b c = refl
or_else_assoc (some a) b c = refl

get-by_hash :
    (h : ℕ) (ks : List ActiveKey) (m : Keys)
    → get h (by_hash ks m) ≡ or_else (client_in h ks) (get h m)
unfolding by_hash client_in
get-by_hash h [] m = refl
get-by_hash h (k ∷ ks) m =
    get-by_hash h ks (insert k.hash k.client m)
    ∙ ap (or_else (client_in h ks)) (get-insert k.hash h k.client m ∙ ground arith)
    ∙ sym (or_else_assoc (client_in h ks) (if k.hash == h then some k.client else none) (get h m))

reload_all-last_read :
    {E : Type 0} (reads : List (Result E (List ActiveKey))) (held : List ActiveKey)
    → reload_all reads (by_hash held []) ≡ by_hash (last_read reads held) []
unfolding reload_all last_read
reload_all-last_read [] held = refl
reload_all-last_read (ok keys ∷ reads) held = reload_all-last_read reads keys
reload_all-last_read (err e ∷ reads) held = reload_all-last_read reads held

or_else-none : (a : Option ApiClient) → or_else a none ≡ a
or_else-none none = refl
or_else-none (some a) = refl

-- What the ring says of a hash, after any reads.
client-reload_all :
    {E : Type 0} (h : ℕ) (reads : List (Result E (List ActiveKey))) (held : List ActiveKey)
    → get h (reload_all reads (by_hash held [])) ≡ client_in h (last_read reads held)
unfolding get
client-reload_all h reads held =
    rw (reload_all-last_read reads held)
      (get-by_hash h (last_read reads held) [] ∙ or_else-none (client_in h (last_read reads held)))

module _ (sha256 : Bytes → ℕ) (ring : Keys) where
  known-ok : (o : Option ApiClient) (c : ApiClient) → known sha256 o ≡ ok c → o ≡ some c
  known-ok none c h = cc
  known-ok (some d) c h = ground arith

  of_key-ok :
      (token : Bytes) (c : ApiClient)
      → of_key sha256 ring (ApiKey.parse token) ≡ ok c
      → IsKeyText token × (get (sha256 token) ring ≡ some c)
  unfolding client_of
  of_key-ok token c h =
      elim (ApiKey.parse token)
          as (λ r.
            ApiKey.parse token ≡ r
            → of_key sha256 ring r ≡ ok c
            → IsKeyText token × (get (sha256 token) ring ≡ some c)) [
              | ok key ↦ λ parsed found.
                  let own : key.text ≡ token = (parse_iff token).1 key parsed in
                  let whole : ApiKey.parse token ≡ ok (record { text = token }) =
                    parsed ∙ ap (λ t. ok (record { text = t })) own in
                  (
                    (parse_iff token).0.0 whole,
                    ap (λ t. get (sha256 t) ring) (sym own)
                        ∙ known-ok (get (sha256 key.text) ring) c found,
                  )
              | err e ↦ λ parsed found. absurd (cc)
            ]
        refl h

  of_token-ok :
      (o : Option Bytes) (c : ApiClient)
      → of_token sha256 ring o ≡ ok c
      → (token : Bytes) × (o ≡ some token) × IsKeyText token × (get (sha256 token) ring ≡ some c)
  of_token-ok none c h = absurd (cc)
  of_token-ok (some token) c h = let (key, found) = of_key-ok token c h in (token, refl, key, found)

  of_token_found :
      (token : Bytes) (c : ApiClient)
      → IsKeyText token
      → get (sha256 token) ring ≡ some c
      → of_token sha256 ring (some token) ≡ ok c
  unfolding client_of
  of_token_found token c key found = rw ((parse_iff token).0.1 key, found)

-- After any reads of the keys, whichever failed, from those held at the start, a credential is
-- accepted as a client's exactly if it is a bearer's, its token is a key's text, and the last
-- read that did not fail holds the token's hash, for that client where it comes last.
pub identify_iff :
    {E : Type 0} (sha256 : Bytes → ℕ) (reads : List (Result E (List ActiveKey)))
    (held : List ActiveKey) (credential : Bytes) (c : ApiClient)
    → (identify sha256 credential (reload_all reads (by_hash held [])) ≡ ok c) ↔ (
        (token : Bytes) × (bearer credential ≡ some token)
        × IsKeyText token
        × (client_in (sha256 token) (last_read reads held) ≡ some c))
unfolding identify
identify_iff sha256 reads held credential c =
    let ring : Keys = reload_all reads (by_hash held []) in
    (
      (λ h.
          let (token, is_bearer, key, found) = of_token-ok sha256 ring (bearer credential) c h in
          (token, is_bearer, key, sym (client-reload_all (sha256 token) reads held) ∙ found)),
      (λ given.
          let (token, is_bearer, key, found) = given in
          rw is_bearer (
            of_token_found sha256 ring token c key
              (client-reload_all (sha256 token) reads held ∙ found))),
    )
