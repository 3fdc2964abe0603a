-- ===== src/Tests/Api.antt =====
-- The HTTP API at concrete inputs.
use Prim.Native.String.{String}
use yog_sothoth.Prelude.{ℕ, ◌≡◌, refl, false, Option, none, some, List, [], ◌∷◌, ◌++◌, arith}
use yog_sothoth.Domain.Cursors.{External, Cursor, pool, token_pools, protocol_pools}
use yog_sothoth.Domain.Protocols.{Protocol, Result, ok, err}
use yog_sothoth.Api.Wire.{
  Codec, Shape, Wire, Fits, Read, malformed, parsed, accepts, written, unless_none, required,
  SignalCursorWire, TokenActivityCursorWire, LiquidityMoveCursorWire, ProtocolCursorWire,
  PoolCursorWire, TokenCursorWire, TokenPriceCursorWire, RotationRunCursorWire,
  AnnouncementCursorWire, EventCursorWire,
}
use yog_sothoth.Api.Cursor.Tags.{scope_tag}
use yog_sothoth.Api.Cursor.Encode.{encode_cursor, encode_b64_json}
use yog_sothoth.Api.Cursor.Lists.{ListKey, pools, decode_for, decode_for-encode_cursor}
use yog_sothoth.Api.Cursor.Mismatch.{Refuses}
use yog_sothoth.Api.Cursor.Refusal.{decode_for-encode_cursor_other}
use yog_sothoth.Prelude.{◌+◌, ◌*◌, ◌↔◌, length}
use yog_sothoth.Prelude.Map.{insert, get}
use yog_sothoth.Domain.ApiKey
use yog_sothoth.Domain.ApiKey.{Bytes, from_random}
use yog_sothoth.Domain.ApiKey.Grammar.{IsKeyText}
use yog_sothoth.Domain.Time.{hour}
use yog_sothoth.Domain.Windows.{Window, FrozenHours, WrittenTranches, duration}
use yog_sothoth.Api.Auth.{ApiClient, ActiveKey, identify, bearer, reload_all, by_hash, client_of}
use yog_sothoth.Api.Auth.Accepted.{client_in, last_read, identify_iff}
use yog_sothoth.Api.Periods.{ReadPeriod, build_read_period}
use yog_sothoth.Api.Periods.Openings.{found, Opens, availability-read}

-- Everything is its own text.
abbrev plain : External
plain = record {
  Instant = String;
  Decimal = String;
  Pubkey = String;
  Signature = String;
  to_rfc3339 = λ t. t;
  parse_from_rfc3339 = λ t. some t;
  parse-to_rfc3339 = λ t. refl;
  print_decimal = λ t. t;
  parse_decimal = λ t. some t;
  parse-print_decimal = λ t. refl;
  print_pubkey = λ t. t;
  parse_pubkey = λ t. some t;
  parse-print_pubkey = λ t. refl;
  print_signature = λ t. t;
  parse_signature = λ t. some t;
  parse-print_signature = λ t. refl;
}

-- A blob is the struct that it was written from.
data Written : Type 0 where
  a_signal : SignalCursorWire → Written
  a_token_activity : TokenActivityCursorWire → Written
  a_liquidity_move : LiquidityMoveCursorWire → Written
  a_protocol : ProtocolCursorWire → Written
  a_pool : PoolCursorWire → Written
  a_token : TokenCursorWire → Written
  a_token_price : TokenPriceCursorWire → Written
  a_rotation_run : RotationRunCursorWire → Written
  an_announcement : AnnouncementCursorWire → Written
  an_event : EventCursorWire → Written

abbrev blob : (s : Shape) → Wire s → Written
blob Shape.signal w = a_signal w
blob Shape.token_activity w = a_token_activity w
blob Shape.liquidity_move w = a_liquidity_move w
blob Shape.protocol w = a_protocol w
blob Shape.pool w = a_pool w
blob Shape.token w = a_token w
blob Shape.token_price w = a_token_price w
blob Shape.rotation_run w = a_rotation_run w
blob Shape.announcement w = an_announcement w
blob Shape.event w = an_event w

abbrev unblob : (s : Shape) → Written → Read (Wire s)
unblob Shape.signal (a_signal w) = parsed w
unblob Shape.token_activity (a_token_activity w) = parsed w
unblob Shape.liquidity_move (a_liquidity_move w) = parsed w
unblob Shape.protocol (a_protocol w) = parsed w
unblob Shape.pool (a_pool w) = parsed w
unblob Shape.token (a_token w) = parsed w
unblob Shape.token_price (a_token_price w) = parsed w
unblob Shape.rotation_run (a_rotation_run w) = parsed w
unblob Shape.announcement (an_announcement w) = parsed w
unblob Shape.event (an_event w) = parsed w
unblob _ _ = malformed

unblob-blob :
    (s : Shape) (w : Wire s) (raw : Written)
    → Fits s w
    → ◌≡◌ {A = Result String Written} (ok (blob s w)) (ok raw)
    → unblob s raw ≡ parsed w
unblob-blob Shape.signal w raw fits h = let e : a_signal w ≡ raw = cc in rw (← e)
unblob-blob Shape.token_activity w raw fits h = let e : a_token_activity w ≡ raw = cc in rw (← e)
unblob-blob Shape.liquidity_move w raw fits h = let e : a_liquidity_move w ≡ raw = cc in rw (← e)
unblob-blob Shape.protocol w raw fits h = let e : a_protocol w ≡ raw = cc in rw (← e)
unblob-blob Shape.pool w raw fits h = let e : a_pool w ≡ raw = cc in rw (← e)
unblob-blob Shape.token w raw fits h = let e : a_token w ≡ raw = cc in rw (← e)
unblob-blob Shape.token_price w raw fits h = let e : a_token_price w ≡ raw = cc in rw (← e)
unblob-blob Shape.rotation_run w raw fits h = let e : a_rotation_run w ≡ raw = cc in rw (← e)
unblob-blob Shape.announcement w raw fits h = let e : an_announcement w ≡ raw = cc in rw (← e)
unblob-blob Shape.event w raw fits h = let e : an_event w ≡ raw = cc in rw (← e)

own_moves :
    (kind : Option String)
    → accepts Shape.liquidity_move (unless_none "kind" kind ++ required Shape.liquidity_move)
      ≡ false
    → ⊥
unfolding accepts
own_moves none h = cc
own_moves (some k) h = cc

refused_blob :
    (s t : Shape) (w : Wire s) → accepts t (written s w) ≡ false → unblob t (blob s w) ≡ malformed
unfolding accepts
refused_blob Shape.liquidity_move Shape.liquidity_move w h = absurd (own_moves w.kind h)
refused_blob Shape.signal Shape.signal w h = cc
refused_blob Shape.token_activity Shape.token_activity w h = cc
refused_blob Shape.protocol Shape.protocol w h = cc
refused_blob Shape.pool Shape.pool w h = cc
refused_blob Shape.token Shape.token w h = cc
refused_blob Shape.token_price Shape.token_price w h = cc
refused_blob Shape.rotation_run Shape.rotation_run w h = cc
refused_blob Shape.announcement Shape.announcement w h = cc
refused_blob Shape.event Shape.event w h = cc
refused_blob _ _ w h = refl

unblob-blob_other :
    (s t : Shape) (w : Wire s) (raw : Written)
    → ◌≡◌ {A = Result String Written} (ok (blob s w)) (ok raw)
    → accepts t (written s w) ≡ false
    → unblob t raw ≡ malformed
unblob-blob_other s t w raw h other =
    let e : blob s w ≡ raw = cc in rw e at (refused_blob s t w other)

abbrev direct : Codec
direct = record {
  Blob = Written;
  write = λ s w. ok (blob s w);
  read = unblob;
  read-write = unblob-blob;
  read-write_other = unblob-blob_other;
}

abbrev last_pool : Cursor plain
last_pool = pool (record {
  scope = token_pools "So1";
  first_seen_at = "2026-01-01T00:00:00Z";
  pool_address = "Poo1";
})

abbrev its_blob : Written
its_blob =
    a_pool (record { scope = "token:So1"; first_seen_at = "2026-01-01T00:00:00Z"; pool = "Poo1" })

encoded : encode_cursor plain direct last_pool ≡ ok its_blob
unfolding encode_cursor encode_b64_json scope_tag
encoded = refl

decode_for-encode_cursor_example :
    decode_for plain direct (pools (token_pools "So1")) its_blob ≡ ok last_pool
decode_for-encode_cursor_example =
    decode_for-encode_cursor plain direct last_pool its_blob tt encoded

abbrev other_list : ListKey plain
other_list = pools (protocol_pools Protocol.meteora_dlmm)

decode_for-encode_cursor_other_example : Refuses (decode_for plain direct other_list its_blob)
decode_for-encode_cursor_other_example =
    decode_for-encode_cursor_other plain direct last_pool other_list its_blob tt encoded (λ e. cc)

abbrev short_hash : Bytes → ℕ
short_hash text = length text

abbrev dashboard : ApiClient
dashboard = record { id = 7; name = b'd' ∷ [] }

abbrev zeros : Bytes
zeros = 0 ∷ 0 ∷ 0 ∷ 0 ∷ []

abbrev key_text : Bytes
key_text =
    (from_random zeros
      (zeros ++ (zeros ++ (zeros ++ (zeros ++ (zeros ++ (zeros ++ (zeros ++ zeros)))))))).text

-- A read that failed after one that did not.
abbrev reads : List (Result ℕ (List ActiveKey))
reads = ok (record { hash = 77; client = dashboard } ∷ []) ∷ err 1 ∷ []

abbrev credential : Bytes
credential = b'B' ∷ b'e' ∷ b'a' ∷ b'r' ∷ b'e' ∷ b'r' ∷ b' ' ∷ key_text

identify_iff_example :
    (identify short_hash credential (reload_all reads (by_hash [] [])) ≡ ok dashboard) ↔ (
      (token : Bytes) × (bearer credential ≡ some token)
      × IsKeyText token
      × (client_in (short_hash token) (last_read reads []) ≡ some dashboard))
identify_iff_example = identify_iff short_hash reads [] credential dashboard

accepted : identify short_hash credential (reload_all reads (by_hash [] [])) ≡ ok dashboard
unfolding identify reload_all by_hash client_of from_random ApiKey.parse insert get
accepted = refl

abbrev frozen_so_far : FrozenHours
frozen_so_far = record { first = 1000 * hour; last_frozen = 1099 * hour }

abbrev written_so_far : WrittenTranches
written_so_far = record { first = 1000 * hour; through = 1100 * hour + 300000000000 }

availability-read_example :
    (p : ReadPeriod) × (build_read_period {E = ℕ}
        (found frozen_so_far written_so_far)
        Window.hour
        (some Window.day)
      ≡ ok (some p))
    × Opens Window.hour (some Window.day) (1100 * hour + 300000000000) (1101 * hour) p
availability-read_example =
    availability-read frozen_so_far written_so_far (some Window.day) (1101 * hour) Window.hour
      (unfold duration in omega arith)
