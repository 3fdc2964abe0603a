-- ===== src/Api/Cursor/Encode.antt =====
-- The encoding half of crates/api/src/http/cursor.rs: a page's cursor as an opaque blob.
use Prim.Native.String.{◌++◌ as concat}
use yog_sothoth.Domain.Cursors.{
  External, Cursor, SignalCursor, TokenActivityCursor, LiquidityMoveCursor, PoolCursor, TokenCursor,
  TokenPriceCursor, EventCursor, AnnouncementCursor, RotationRunCursor,
}
use yog_sothoth.Domain.Protocols
use yog_sothoth.Domain.Protocols.{Protocol, Result, ok, err}
use yog_sothoth.Domain.Windows
use yog_sothoth.Domain.Windows.{Window}
use yog_sothoth.Api.Errors.{ApiError, internal}
use yog_sothoth.Api.Wire.{
  Codec, Shape, Wire, SignalCursorWire, TokenActivityCursorWire, LiquidityMoveCursorWire,
  PoolCursorWire, TokenCursorWire, TokenPriceCursorWire, RotationRunCursorWire,
  AnnouncementCursorWire, EventCursorWire,
}
use yog_sothoth.Domain.Cursors.{
  signal, token_activity, liquidity_move, pool, token, token_price, swap_event,
  liquidity_change_event, pool_creation_event, position_change_event, position_fee_claim_event,
  protocol_fee_claim_event, reward_claim_event, reward_change_event, pool_change_event,
  announcement, rotation_run, protocol,
}
use yog_sothoth.Api.Cursor.Tags.{
  EventCollection, swaps, liquidity_changes, pool_creations, position_changes, position_fee_claims,
  protocol_fee_claims, reward_claims, reward_changes, pool_changes, tag, order_tag,
  rotation_run_order_tag, kind_tag, status_tag, event_scope_tag, scope_tag,
  liquidity_move_scope_tag, rotation_run_scope_tag,
}

module _ (codec : Codec) where
  open codec use {Blob, write, read}

  unfoldable pub encode_b64_json : (s : Shape) → Wire s → Result ApiError Blob
  encode_b64_json s w = elim (write s w) [
    | ok raw ↦ ok raw
    | err e ↦ err (internal (concat "failed to encode cursor: " e))
  ]

module _ (x : External) where
  open x use {to_rfc3339, print_decimal, print_pubkey, print_signature}

  -- Each cursor's struct.
  abbrev pub signal_wire : SignalCursor x → SignalCursorWire
  signal_wire c = record { triggered_at = to_rfc3339 c.triggered_at; id = c.id }

  abbrev pub token_activity_wire : TokenActivityCursor x → TokenActivityCursorWire
  token_activity_wire c = record {
    last_hour = to_rfc3339 c.last_hour;
    volume_usd = print_decimal c.volume_usd;
    mint = print_pubkey c.mint;
  }

  abbrev pub liquidity_move_wire : LiquidityMoveCursor x → LiquidityMoveCursorWire
  liquidity_move_wire c = record {
    scope = liquidity_move_scope_tag x c.list.scope;
    kind = kind_tag c.list.kind;
    window = Windows.as_str c.window;
    as_of = to_rfc3339 c.as_of;
    order = order_tag c.order;
    amount_usd = print_decimal c.amount_usd;
    at = to_rfc3339 c.at;
    signature = c.signature;
    event_index = c.event_index;
  }

  abbrev pub pool_wire : PoolCursor x → PoolCursorWire
  pool_wire c = record {
    scope = scope_tag x c.scope;
    first_seen_at = to_rfc3339 c.first_seen_at;
    pool = print_pubkey c.pool_address;
  }

  abbrev pub token_wire : TokenCursor x → TokenCursorWire
  token_wire c = record { fetched_at = to_rfc3339 c.fetched_at; mint = print_pubkey c.mint }

  abbrev pub token_price_wire : TokenPriceCursor x → TokenPriceCursorWire
  token_price_wire c = record {
    mint = print_pubkey c.mint;
    from = to_rfc3339 c.from;
    fetched_at = to_rfc3339 c.fetched_at;
  }

  abbrev pub event_wire : EventCollection → EventCursor x → EventCursorWire
  event_wire collection c = record {
    collection = tag collection;
    scope = event_scope_tag x c.scope;
    from = to_rfc3339 c.from;
    at = to_rfc3339 c.at;
    signature = print_signature c.signature;
    event_index = c.event_index;
  }

  abbrev pub announcement_wire : AnnouncementCursor x → AnnouncementCursorWire
  announcement_wire c = record {
    status = status_tag c.status;
    starts_at = to_rfc3339 c.starts_at;
    id = c.id;
  }

  abbrev pub rotation_run_wire : RotationRunCursor x → RotationRunCursorWire
  rotation_run_wire c = record {
    scope = rotation_run_scope_tag x c.scope;
    window = Windows.as_str c.window;
    as_of = to_rfc3339 c.as_of;
    order = rotation_run_order_tag c.order;
    volume_usd = print_decimal c.volume_usd;
    started_at = to_rfc3339 c.started_at;
    pool = print_pubkey c.pool_address;
  }

  module _ (codec : Codec) where
    open codec use {Blob}

    unfoldable pub encode_event_cursor : EventCollection → EventCursor x → Result ApiError Blob
    encode_event_cursor collection c = encode_b64_json codec Shape.event (event_wire collection c)

    unfoldable pub encode_cursor : Cursor x → Result ApiError Blob
    unfolding encode_event_cursor
    encode_cursor (signal c) = encode_b64_json codec Shape.signal (signal_wire c)
    encode_cursor (token_activity c) =
        encode_b64_json codec Shape.token_activity (token_activity_wire c)
    encode_cursor (liquidity_move c) =
        encode_b64_json codec Shape.liquidity_move (liquidity_move_wire c)
    encode_cursor (pool c) = encode_b64_json codec Shape.pool (pool_wire c)
    encode_cursor (token c) = encode_b64_json codec Shape.token (token_wire c)
    encode_cursor (token_price c) = encode_b64_json codec Shape.token_price (token_price_wire c)
    encode_cursor (swap_event c) = encode_event_cursor swaps c
    encode_cursor (liquidity_change_event c) = encode_event_cursor liquidity_changes c
    encode_cursor (pool_creation_event c) = encode_event_cursor pool_creations c
    encode_cursor (position_change_event c) = encode_event_cursor position_changes c
    encode_cursor (position_fee_claim_event c) = encode_event_cursor position_fee_claims c
    encode_cursor (protocol_fee_claim_event c) = encode_event_cursor protocol_fee_claims c
    encode_cursor (reward_claim_event c) = encode_event_cursor reward_claims c
    encode_cursor (reward_change_event c) = encode_event_cursor reward_changes c
    encode_cursor (pool_change_event c) = encode_event_cursor pool_changes c
    encode_cursor (rotation_run c) = encode_b64_json codec Shape.rotation_run (rotation_run_wire c)
    encode_cursor (announcement c) = encode_b64_json codec Shape.announcement (announcement_wire c)
    encode_cursor (protocol p) =
        encode_b64_json codec Shape.protocol (record { protocol = Protocols.as_str p })
