-- ===== src/Api/Cursor/Refusal.antt =====
-- The refusals of crates/api/src/http/cursor.rs, list by list.
use yog_sothoth.Prelude.{◌<◌, ◌^◌, ◌≡◌, ◌≢◌, refl, ap}
use yog_sothoth.Domain.Cursors.{
  External, Cursor, EventCursor, signal, token_activity, liquidity_move, pool, token, token_price,
  swap_event, liquidity_change_event, pool_creation_event, position_change_event,
  position_fee_claim_event, protocol_fee_claim_event, reward_claim_event, reward_change_event,
  pool_change_event, announcement, rotation_run, protocol,
}
use yog_sothoth.Domain.Protocols.{ok}
use yog_sothoth.Api.Wire.{Codec, Shape}
use yog_sothoth.Api.Cursor.Tags.{
  EventCollection, swaps, liquidity_changes, pool_creations, position_changes, position_fee_claims,
  protocol_fee_claims, reward_claims, reward_changes, pool_changes,
}
use yog_sothoth.Api.Cursor.Encode.{encode_cursor, encode_event_cursor}
use yog_sothoth.Api.Cursor.RoundTrip.{read-encode_b64_json}
use yog_sothoth.Api.Cursor.Lists.{
  ListKey, signals, token_activities, moves, pools, tokens, prices, events, announcements, runs,
  protocols, list_of, InRange, decode_for,
}
use yog_sothoth.Api.Cursor.Mismatch.{
  Refuses, other_shape, other_pool, other_mint, other_status, other_event, other_moves, other_runs,
}

module _ (x : External) (codec : Codec) where
  open codec use {Blob}

  other_events :
      (own : EventCollection) (c : EventCursor x) (k : ListKey x) (raw : Blob)
      → c.event_index < 2 ^ 16
      → encode_event_cursor x codec own c ≡ ok raw
      → events own c.scope ≢ k
      → Refuses (decode_for x codec k raw)
  unfolding encode_event_cursor
  other_events own c (events collection scope) raw fits h ne =
      other_event x codec own c collection scope raw
        (read-encode_b64_json codec Shape.event _ raw fits h) ne
  other_events own c k raw fits h ne = other_shape x codec Shape.event _ k raw h (λ e. cc)

  -- A cursor of any list, with its integers in their types' ranges, that was encoded is answered
  -- with a bad request by the decoder of every other list.
  pub decode_for-encode_cursor_other :
      (c : Cursor x) (k : ListKey x) (raw : Blob)
      → InRange x c
      → encode_cursor x codec c ≡ ok raw
      → list_of x c ≢ k
      → Refuses (decode_for x codec k raw)
  unfolding encode_cursor
  decode_for-encode_cursor_other (signal c) signals raw fits h ne = absurd (ne refl)
  decode_for-encode_cursor_other (signal c) k raw fits h ne =
      other_shape x codec Shape.signal _ k raw h (λ e. cc)
  decode_for-encode_cursor_other (token_activity c) token_activities raw fits h ne =
      absurd (ne refl)
  decode_for-encode_cursor_other (token_activity c) k raw fits h ne =
      other_shape x codec Shape.token_activity _ k raw h (λ e. cc)
  decode_for-encode_cursor_other (token c) tokens raw fits h ne = absurd (ne refl)
  decode_for-encode_cursor_other (token c) k raw fits h ne =
      other_shape x codec Shape.token _ k raw h (λ e. cc)
  decode_for-encode_cursor_other (liquidity_move c) (moves list order) raw fits h ne =
      other_moves x codec c list order raw
        (read-encode_b64_json codec Shape.liquidity_move _ raw fits h) (ne)
  decode_for-encode_cursor_other (liquidity_move c) k raw fits h ne =
      other_shape x codec Shape.liquidity_move _ k raw h (λ e. cc)
  decode_for-encode_cursor_other (pool c) (pools scope) raw fits h ne =
      other_pool x codec c scope raw (read-encode_b64_json codec Shape.pool _ raw fits h)
        (λ e. ne (ap pools e))
  decode_for-encode_cursor_other (pool c) k raw fits h ne =
      other_shape x codec Shape.pool _ k raw h (λ e. cc)
  decode_for-encode_cursor_other (token_price c) (prices mint) raw fits h ne =
      other_mint x codec c mint raw (read-encode_b64_json codec Shape.token_price _ raw fits h)
        (λ e. ne (ap prices e))
  decode_for-encode_cursor_other (token_price c) k raw fits h ne =
      other_shape x codec Shape.token_price _ k raw h (λ e. cc)
  decode_for-encode_cursor_other (announcement c) (announcements status) raw fits h ne =
      other_status x codec c status raw (read-encode_b64_json codec Shape.announcement _ raw fits h)
        (λ e. ne (ap announcements e))
  decode_for-encode_cursor_other (announcement c) k raw fits h ne =
      other_shape x codec Shape.announcement _ k raw h (λ e. cc)
  decode_for-encode_cursor_other (rotation_run c) (runs scope window order) raw fits h ne =
      other_runs x codec c scope window order raw
        (read-encode_b64_json codec Shape.rotation_run _ raw fits h) (ne)
  decode_for-encode_cursor_other (rotation_run c) k raw fits h ne =
      other_shape x codec Shape.rotation_run _ k raw h (λ e. cc)
  decode_for-encode_cursor_other (protocol p) protocols raw fits h ne = absurd (ne refl)
  decode_for-encode_cursor_other (protocol p) k raw fits h ne =
      other_shape x codec Shape.protocol _ k raw h (λ e. cc)
  decode_for-encode_cursor_other (swap_event c) k raw fits h ne =
      other_events swaps c k raw fits h ne
  decode_for-encode_cursor_other (liquidity_change_event c) k raw fits h ne =
      other_events liquidity_changes c k raw fits h ne
  decode_for-encode_cursor_other (pool_creation_event c) k raw fits h ne =
      other_events pool_creations c k raw fits h ne
  decode_for-encode_cursor_other (position_change_event c) k raw fits h ne =
      other_events position_changes c k raw fits h ne
  decode_for-encode_cursor_other (position_fee_claim_event c) k raw fits h ne =
      other_events position_fee_claims c k raw fits h ne
  decode_for-encode_cursor_other (protocol_fee_claim_event c) k raw fits h ne =
      other_events protocol_fee_claims c k raw fits h ne
  decode_for-encode_cursor_other (reward_claim_event c) k raw fits h ne =
      other_events reward_claims c k raw fits h ne
  decode_for-encode_cursor_other (reward_change_event c) k raw fits h ne =
      other_events reward_changes c k raw fits h ne
  decode_for-encode_cursor_other (pool_change_event c) k raw fits h ne =
      other_events pool_changes c k raw fits h ne
