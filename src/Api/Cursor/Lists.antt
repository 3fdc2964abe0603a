-- ===== src/Api/Cursor/Lists.antt =====
-- The lists that a cursor can be taken from, and the decoder of each.
use yog_sothoth.Prelude.{◌≡◌, Option}
use yog_sothoth.Domain.Announcements.{AnnouncementStatus}
use yog_sothoth.Domain.Cursors.{
  External, Cursor, EventScope, PoolScope, RotationRunScope, RotationRunOrder, LiquidityMoveList,
  EventCursor, signal, token_activity, liquidity_move, pool, token, token_price, swap_event,
  liquidity_change_event, pool_creation_event, position_change_event, position_fee_claim_event,
  protocol_fee_claim_event, reward_claim_event, reward_change_event, pool_change_event,
  announcement, rotation_run, protocol,
}
use yog_sothoth.Domain.LiquidityMoves.{LiquidityMoveOrder}
use yog_sothoth.Domain.Protocols.{Result, ok, err}
use yog_sothoth.Domain.Windows.{Window}
use yog_sothoth.Api.Errors.{ApiError}
use yog_sothoth.Api.Wire.{Codec, Shape, IsI64, IsI32}
use yog_sothoth.Prelude.{◌<◌, ◌^◌}
use yog_sothoth.Api.Cursor.Tags.{
  EventCollection, swaps, liquidity_changes, pool_creations, position_changes, position_fee_claims,
  protocol_fee_claims, reward_claims, reward_changes, pool_changes,
}
use yog_sothoth.Api.Cursor.Encode.{encode_cursor, encode_event_cursor}
use yog_sothoth.Api.Cursor.Decode.{
  decode_signal_cursor, decode_token_activity_cursor, decode_liquidity_move_cursor,
  decode_pool_cursor, decode_token_cursor, decode_rotation_run_cursor, decode_protocol_cursor,
  decode_announcement_cursor, decode_token_price_cursor, decode_event_cursor,
}
use yog_sothoth.Api.Cursor.RoundTrip.{
  read-encode_b64_json, decode-signal, decode-token_activity, decode-liquidity_move, decode-pool,
  decode-token, decode-token_price, decode-event, decode-announcement, decode-rotation_run,
  decode-protocol,
}

abbrev pub map_ok : {E A B : Type 0} → (A → B) → Result E A → Result E B
map_ok f (ok a) = ok (f a)
map_ok f (err e) = err e

module _ (x : External) where
  open x use {Pubkey}

  -- What a decoder is asked for.
  pub data ListKey : Type 0 where
    signals : ListKey
    token_activities : ListKey
    moves : LiquidityMoveList x → LiquidityMoveOrder → ListKey
    pools : PoolScope x → ListKey
    tokens : ListKey
    prices : Pubkey → ListKey
    events : EventCollection → EventScope x → ListKey
    announcements : Option AnnouncementStatus → ListKey
    runs : RotationRunScope x → Window → RotationRunOrder → ListKey
    protocols : ListKey

  abbrev pub event_cursor : EventCollection → EventCursor x → Cursor x
  event_cursor swaps c = swap_event c
  event_cursor liquidity_changes c = liquidity_change_event c
  event_cursor pool_creations c = pool_creation_event c
  event_cursor position_changes c = position_change_event c
  event_cursor position_fee_claims c = position_fee_claim_event c
  event_cursor protocol_fee_claims c = protocol_fee_claim_event c
  event_cursor reward_claims c = reward_claim_event c
  event_cursor reward_changes c = reward_change_event c
  event_cursor pool_changes c = pool_change_event c

  abbrev pub list_of : Cursor x → ListKey
  list_of (signal c) = signals
  list_of (token_activity c) = token_activities
  list_of (liquidity_move c) = moves c.list c.order
  list_of (pool c) = pools c.scope
  list_of (token c) = tokens
  list_of (token_price c) = prices c.mint
  list_of (swap_event c) = events swaps c.scope
  list_of (liquidity_change_event c) = events liquidity_changes c.scope
  list_of (pool_creation_event c) = events pool_creations c.scope
  list_of (position_change_event c) = events position_changes c.scope
  list_of (position_fee_claim_event c) = events position_fee_claims c.scope
  list_of (protocol_fee_claim_event c) = events protocol_fee_claims c.scope
  list_of (reward_claim_event c) = events reward_claims c.scope
  list_of (reward_change_event c) = events reward_changes c.scope
  list_of (pool_change_event c) = events pool_changes c.scope
  list_of (announcement c) = announcements c.status
  list_of (rotation_run c) = runs c.scope c.window c.order
  list_of (protocol p) = protocols

  -- The cursor's integers are those of its types.
  abbrev pub InRange : Cursor x → Type 0
  InRange (signal c) = IsI64 c.id
  InRange (liquidity_move c) = IsI32 c.event_index
  InRange (swap_event c) = c.event_index < 2 ^ 16
  InRange (liquidity_change_event c) = c.event_index < 2 ^ 16
  InRange (pool_creation_event c) = c.event_index < 2 ^ 16
  InRange (position_change_event c) = c.event_index < 2 ^ 16
  InRange (position_fee_claim_event c) = c.event_index < 2 ^ 16
  InRange (protocol_fee_claim_event c) = c.event_index < 2 ^ 16
  InRange (reward_claim_event c) = c.event_index < 2 ^ 16
  InRange (reward_change_event c) = c.event_index < 2 ^ 16
  InRange (pool_change_event c) = c.event_index < 2 ^ 16
  InRange (announcement c) = IsI64 c.id
  InRange _ = Unit

  module _ (codec : Codec) where
    open codec use {Blob}

    -- The decoder that the handler of each list calls.
    unfoldable pub decode_for : ListKey → Blob → Result ApiError (Cursor x)
    decode_for signals raw = map_ok signal (decode_signal_cursor x codec raw)
    decode_for token_activities raw =
        map_ok token_activity (decode_token_activity_cursor x codec raw)
    decode_for (moves list order) raw =
        map_ok liquidity_move (decode_liquidity_move_cursor x codec raw list order)
    decode_for (pools scope) raw = map_ok pool (decode_pool_cursor x codec raw scope)
    decode_for tokens raw = map_ok token (decode_token_cursor x codec raw)
    decode_for (prices mint) raw = map_ok token_price (decode_token_price_cursor x codec raw mint)
    decode_for (events collection scope) raw =
        map_ok (event_cursor collection) (decode_event_cursor x codec raw collection scope)
    decode_for (announcements status) raw =
        map_ok announcement (decode_announcement_cursor x codec raw status)
    decode_for (runs scope window order) raw =
        map_ok rotation_run (decode_rotation_run_cursor x codec raw scope window order)
    decode_for protocols raw = map_ok protocol (decode_protocol_cursor x codec raw)

    decode_for-event :
        (collection : EventCollection) (c : EventCursor x) (raw : Blob)
        → c.event_index < 2 ^ 16
        → encode_event_cursor x codec collection c ≡ ok raw
        → decode_for (events collection c.scope) raw ≡ ok (event_cursor collection c)
    unfolding decode_for encode_event_cursor
    decode_for-event collection c raw fits h = rw (
        decode-event codec x collection c raw (read-encode_b64_json codec Shape.event _ raw fits h))

    -- A cursor of any list, with its integers in their types' ranges, that was encoded is read
    -- back as it was by the decoder of that list.
    pub decode_for-encode_cursor :
        (c : Cursor x) (raw : Blob)
        → InRange c
        → encode_cursor x codec c ≡ ok raw
        → decode_for (list_of c) raw ≡ ok c
    unfolding decode_for encode_cursor
    decode_for-encode_cursor (signal c) raw fits h =
        rw (decode-signal codec x c raw (read-encode_b64_json codec Shape.signal _ raw fits h))
    decode_for-encode_cursor (token_activity c) raw fits h = rw (
        decode-token_activity codec x c raw
          (read-encode_b64_json codec Shape.token_activity _ raw fits h))
    decode_for-encode_cursor (liquidity_move c) raw fits h = rw (
        decode-liquidity_move codec x c raw
          (read-encode_b64_json codec Shape.liquidity_move _ raw fits h))
    decode_for-encode_cursor (pool c) raw fits h =
        rw (decode-pool codec x c raw (read-encode_b64_json codec Shape.pool _ raw fits h))
    decode_for-encode_cursor (token c) raw fits h =
        rw (decode-token codec x c raw (read-encode_b64_json codec Shape.token _ raw fits h))
    decode_for-encode_cursor (token_price c) raw fits h = rw (
        decode-token_price codec x c raw
          (read-encode_b64_json codec Shape.token_price _ raw fits h))
    decode_for-encode_cursor (announcement c) raw fits h = rw (
        decode-announcement codec x c raw
          (read-encode_b64_json codec Shape.announcement _ raw fits h))
    decode_for-encode_cursor (rotation_run c) raw fits h = rw (
        decode-rotation_run codec x c raw
          (read-encode_b64_json codec Shape.rotation_run _ raw fits h))
    decode_for-encode_cursor (swap_event c) raw fits h = decode_for-event swaps c raw fits h
    decode_for-encode_cursor (liquidity_change_event c) raw fits h =
        decode_for-event liquidity_changes c raw fits h
    decode_for-encode_cursor (pool_creation_event c) raw fits h =
        decode_for-event pool_creations c raw fits h
    decode_for-encode_cursor (position_change_event c) raw fits h =
        decode_for-event position_changes c raw fits h
    decode_for-encode_cursor (position_fee_claim_event c) raw fits h =
        decode_for-event position_fee_claims c raw fits h
    decode_for-encode_cursor (protocol_fee_claim_event c) raw fits h =
        decode_for-event protocol_fee_claims c raw fits h
    decode_for-encode_cursor (reward_claim_event c) raw fits h =
        decode_for-event reward_claims c raw fits h
    decode_for-encode_cursor (reward_change_event c) raw fits h =
        decode_for-event reward_changes c raw fits h
    decode_for-encode_cursor (pool_change_event c) raw fits h =
        decode_for-event pool_changes c raw fits h
    decode_for-encode_cursor (protocol p) raw fits h =
        rw (decode-protocol codec x p raw (read-encode_b64_json codec Shape.protocol _ raw fits h))
