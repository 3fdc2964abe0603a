-- ===== src/Api/Cursor/RoundTrip.antt =====
-- The decoders of crates/api/src/http/cursor.rs after its encoders.
use text.Mathlib.TextPositions.{eq_refl}
use yog_sothoth.Prelude.{◌≡◌, refl, true, Option, none, some, arith}
use yog_sothoth.Prelude.Text.{opt_str_eq}
use yog_sothoth.Domain.Announcements.{AnnouncementStatus}
use yog_sothoth.Domain.Cursors.{
  External, SignalCursor, TokenActivityCursor, LiquidityMoveCursor, PoolCursor, TokenCursor,
  TokenPriceCursor, EventCursor, AnnouncementCursor, RotationRunCursor,
}
use yog_sothoth.Domain.LiquidityMoves.{LiquidityMoveKind}
use yog_sothoth.Domain.Protocols
use yog_sothoth.Domain.Protocols.{Protocol, Result, ok, err}
use yog_sothoth.Api.Wire.{Codec, Shape, Wire, Fits, parsed}
use yog_sothoth.Api.Cursor.Tags.{EventCollection, kind_tag, status_tag, parse_rfc3339}
use yog_sothoth.Api.Cursor.Injective.{find_window_label, find_protocol_label}
use yog_sothoth.Api.Cursor.Encode.{
  encode_b64_json, signal_wire, token_activity_wire, liquidity_move_wire, pool_wire, token_wire,
  token_price_wire, event_wire, announcement_wire, rotation_run_wire,
}
use yog_sothoth.Api.Cursor.Decode.{
  decode_signal_cursor, decode_token_activity_cursor, decode_liquidity_move_cursor,
  decode_pool_cursor, decode_token_cursor, decode_rotation_run_cursor, decode_protocol_cursor,
  decode_announcement_cursor, decode_token_price_cursor, decode_event_cursor,
}

opt_str_eq_refl-kind : (k : Option LiquidityMoveKind) → opt_str_eq (kind_tag k) (kind_tag k) ≡ true
opt_str_eq_refl-kind none = refl
opt_str_eq_refl-kind (some k) = rw eq_refl

opt_str_eq_refl-status :
    (s : Option AnnouncementStatus) → opt_str_eq (status_tag s) (status_tag s) ≡ true
opt_str_eq_refl-status none = refl
opt_str_eq_refl-status (some s) = rw eq_refl

ruleset tags =
    (eq_refl, find_window_label, find_protocol_label, opt_str_eq_refl-kind, opt_str_eq_refl-status)

module _ (codec : Codec) where
  open codec use {Blob, write, read, read-write}

  pub encode_b64_json-write :
      (s : Shape) (w : Wire s) (raw : Blob)
      → encode_b64_json codec s w ≡ ok raw
      → write s w ≡ ok raw
  unfolding encode_b64_json
  encode_b64_json-write s w raw h = ground arith

  -- What was encoded is read back.
  pub read-encode_b64_json :
      (s : Shape) (w : Wire s) (raw : Blob)
      → Fits s w
      → encode_b64_json codec s w ≡ ok raw
      → read s raw ≡ parsed w
  read-encode_b64_json s w raw fits h = read-write s w raw fits (encode_b64_json-write s w raw h)

  module _ (x : External) where
    open x use {parse-to_rfc3339, parse-print_decimal, parse-print_pubkey, parse-print_signature}

    pub decode-signal :
        (c : SignalCursor x) (raw : Blob)
        → read Shape.signal raw ≡ parsed (signal_wire x c)
        → decode_signal_cursor x codec raw ≡ ok c
    unfolding decode_signal_cursor parse_rfc3339
    decode-signal c raw h = rw h (simp parse-to_rfc3339)

    pub decode-token_activity :
        (c : TokenActivityCursor x) (raw : Blob)
        → read Shape.token_activity raw ≡ parsed (token_activity_wire x c)
        → decode_token_activity_cursor x codec raw ≡ ok c
    unfolding decode_token_activity_cursor parse_rfc3339
    decode-token_activity c raw h =
        rw h (simp (parse-to_rfc3339, parse-print_decimal, parse-print_pubkey))

    pub decode-liquidity_move :
        (c : LiquidityMoveCursor x) (raw : Blob)
        → read Shape.liquidity_move raw ≡ parsed (liquidity_move_wire x c)
        → decode_liquidity_move_cursor x codec raw c.list c.order ≡ ok c
    unfolding decode_liquidity_move_cursor parse_rfc3339
    decode-liquidity_move c raw h = rw h (simp (tags, parse-to_rfc3339, parse-print_decimal))

    pub decode-pool :
        (c : PoolCursor x) (raw : Blob)
        → read Shape.pool raw ≡ parsed (pool_wire x c)
        → decode_pool_cursor x codec raw c.scope ≡ ok c
    unfolding decode_pool_cursor parse_rfc3339
    decode-pool c raw h = rw h (simp (tags, parse-to_rfc3339, parse-print_pubkey))

    pub decode-token :
        (c : TokenCursor x) (raw : Blob)
        → read Shape.token raw ≡ parsed (token_wire x c)
        → decode_token_cursor x codec raw ≡ ok c
    unfolding decode_token_cursor parse_rfc3339
    decode-token c raw h = rw h (simp (parse-to_rfc3339, parse-print_pubkey))

    pub decode-token_price :
        (c : TokenPriceCursor x) (raw : Blob)
        → read Shape.token_price raw ≡ parsed (token_price_wire x c)
        → decode_token_price_cursor x codec raw c.mint ≡ ok c
    unfolding decode_token_price_cursor parse_rfc3339
    decode-token_price c raw h = rw h (simp (tags, parse-to_rfc3339))

    pub decode-event :
        (collection : EventCollection) (c : EventCursor x) (raw : Blob)
        → read Shape.event raw ≡ parsed (event_wire x collection c)
        → decode_event_cursor x codec raw collection c.scope ≡ ok c
    unfolding decode_event_cursor parse_rfc3339
    decode-event collection c raw h = rw h (simp (tags, parse-to_rfc3339, parse-print_signature))

    pub decode-announcement :
        (c : AnnouncementCursor x) (raw : Blob)
        → read Shape.announcement raw ≡ parsed (announcement_wire x c)
        → decode_announcement_cursor x codec raw c.status ≡ ok c
    unfolding decode_announcement_cursor parse_rfc3339
    decode-announcement c raw h = rw h (simp (tags, parse-to_rfc3339))

    pub decode-rotation_run :
        (c : RotationRunCursor x) (raw : Blob)
        → read Shape.rotation_run raw ≡ parsed (rotation_run_wire x c)
        → decode_rotation_run_cursor x codec raw c.scope c.window c.order ≡ ok c
    unfolding decode_rotation_run_cursor parse_rfc3339
    decode-rotation_run c raw h =
        rw h (simp (tags, parse-to_rfc3339, parse-print_decimal, parse-print_pubkey))

    pub decode-protocol :
        (p : Protocol) (raw : Blob)
        → read Shape.protocol raw ≡ parsed (record { protocol = Protocols.as_str p })
        → decode_protocol_cursor x codec raw ≡ ok p
    unfolding decode_protocol_cursor
    decode-protocol p raw h = rw h (simp tags)
