-- ===== src/Api/Cursor/Decode.antt =====
-- The decoding half of crates/api/src/http/cursor.rs: a blob read as a cursor of one list, and refused
-- where it was taken in another.
use Prim.Native.String.{String}
use text.Mathlib.Text.{◌==◌ as str_eq}
use yog_sothoth.Prelude.{Bool, true, false, ◌||◌, not, Option, ◌∷◌}
use yog_sothoth.Prelude.Text.{opt_str_eq}
use yog_sothoth.Domain.Announcements.{AnnouncementStatus}
use yog_sothoth.Domain.Cursors.{
  External, EventScope, PoolScope, RotationRunScope, RotationRunOrder, LiquidityMoveList,
  SignalCursor, TokenActivityCursor, LiquidityMoveCursor, PoolCursor, TokenCursor, TokenPriceCursor,
  EventCursor, AnnouncementCursor, RotationRunCursor,
}
use yog_sothoth.Domain.LiquidityMoves.{LiquidityMoveOrder, find_label}
use yog_sothoth.Domain.Protocols
use yog_sothoth.Domain.Protocols.{Protocol, Result, ok, err}
use yog_sothoth.Domain.Windows
use yog_sothoth.Domain.Windows.{Window}
use yog_sothoth.Api.Errors.{ApiError, ok_or, ◌>>=◌}
use yog_sothoth.Api.Wire.{Codec, Read, not_base64, malformed, parsed, Shape, Wire}
use yog_sothoth.Api.Cursor.Tags.{
  EventCollection, tag, order_tag, rotation_run_order_tag, kind_tag, status_tag, refused,
  event_scope_tag, scope_tag, liquidity_move_scope_tag, rotation_run_scope_tag, parse_rfc3339,
}

abbrev pub failed_read : {A : Type 0} → Read A → Result ApiError A
failed_read not_base64 = err (refused "not valid base64")
failed_read malformed = err (refused "malformed payload")
failed_read (parsed w) = ok w

abbrev pub refuse_if : Bool → String → Result ApiError (Unit {0})
refuse_if true reason = err (refused reason)
refuse_if false reason = ok tt

infixl 5 ◌>>◌
abbrev pub ◌>>◌ : {B : Type 0} → Result ApiError (Unit {0}) → Result ApiError B → Result ApiError B
m >> k = m >>= λ _. k

find_window : String → Option Window
find_window label = find_label Windows.as_str label (Window.hour ∷ Windows.all)

module _ (x : External) where
  open x use {
    Decimal, Pubkey, Signature, parse_decimal, parse_pubkey, parse_signature, print_pubkey,
  }

  read_decimal : String → String → Result ApiError Decimal
  read_decimal reason raw = ok_or (refused reason) (parse_decimal raw)

  read_pubkey : String → String → Result ApiError Pubkey
  read_pubkey reason raw = ok_or (refused reason) (parse_pubkey raw)

  module _ (codec : Codec) where
    open codec use {Blob, read}

    decode_b64_json : (s : Shape) → Blob → Result ApiError (Wire s)
    decode_b64_json s raw = failed_read (read s raw)

    unfoldable pub decode_signal_cursor : Blob → Result ApiError (SignalCursor x)
    unfolding decode_b64_json
    decode_signal_cursor raw = do
      wire ← decode_b64_json Shape.signal raw
      triggered_at ← parse_rfc3339 x wire.triggered_at
      ok (record { triggered_at = triggered_at; id = wire.id })

    unfoldable pub decode_token_activity_cursor : Blob → Result ApiError (TokenActivityCursor x)
    unfolding decode_b64_json read_decimal read_pubkey
    decode_token_activity_cursor raw = do
      wire ← decode_b64_json Shape.token_activity raw
      last_hour ← parse_rfc3339 x wire.last_hour
      volume_usd ← read_decimal "malformed volume" wire.volume_usd
      mint ← read_pubkey "malformed mint" wire.mint
      ok (record { last_hour = last_hour; volume_usd = volume_usd; mint = mint })

    -- A cursor of the list's moves in the order.
    unfoldable pub decode_liquidity_move_cursor :
        Blob → LiquidityMoveList x → LiquidityMoveOrder → Result ApiError (LiquidityMoveCursor x)
    unfolding decode_b64_json read_decimal find_window
    decode_liquidity_move_cursor raw list order = do
      wire ← decode_b64_json Shape.liquidity_move raw
      refuse_if
          (not (str_eq wire.scope (liquidity_move_scope_tag x list.scope))
            || not (opt_str_eq wire.kind (kind_tag list.kind)))
          "taken in another list"
      refuse_if (not (str_eq wire.order (order_tag order))) "taken in another order"
      window ← ok_or (refused "malformed window") (find_window wire.window)
      as_of ← parse_rfc3339 x wire.as_of
      amount_usd ← read_decimal "malformed amount" wire.amount_usd
      at ← parse_rfc3339 x wire.at
      ok (record {
        list = list;
        window = window;
        as_of = as_of;
        order = order;
        amount_usd = amount_usd;
        at = at;
        signature = wire.signature;
        event_index = wire.event_index;
      })

    -- A cursor of the pools of the scope.
    unfoldable pub decode_pool_cursor : Blob → PoolScope x → Result ApiError (PoolCursor x)
    unfolding decode_b64_json read_pubkey
    decode_pool_cursor raw scope = do
      wire ← decode_b64_json Shape.pool raw
      refuse_if (not (str_eq wire.scope (scope_tag x scope))) "taken in another list"
      first_seen_at ← parse_rfc3339 x wire.first_seen_at
      pool_address ← read_pubkey "malformed pool" wire.pool
      ok (record { scope = scope; first_seen_at = first_seen_at; pool_address = pool_address })

    unfoldable pub decode_token_cursor : Blob → Result ApiError (TokenCursor x)
    unfolding decode_b64_json read_pubkey
    decode_token_cursor raw = do
      wire ← decode_b64_json Shape.token raw
      fetched_at ← parse_rfc3339 x wire.fetched_at
      mint ← read_pubkey "malformed mint" wire.mint
      ok (record { fetched_at = fetched_at; mint = mint })

    -- A cursor of the scope's runs over the window in the order.
    unfoldable pub decode_rotation_run_cursor :
        Blob
        → RotationRunScope x
        → Window
        → RotationRunOrder
        → Result ApiError (RotationRunCursor x)
    unfolding decode_b64_json read_decimal read_pubkey
    decode_rotation_run_cursor raw scope window order = do
      wire ← decode_b64_json Shape.rotation_run raw
      refuse_if
          (not (str_eq wire.scope (rotation_run_scope_tag x scope))
            || (not (str_eq wire.window (Windows.as_str window))
                || not (str_eq wire.order (rotation_run_order_tag order))))
          "taken in another list"
      as_of ← parse_rfc3339 x wire.as_of
      volume_usd ← read_decimal "malformed volume" wire.volume_usd
      started_at ← parse_rfc3339 x wire.started_at
      pool_address ← read_pubkey "malformed pool" wire.pool
      ok (record {
        scope = scope;
        window = window;
        as_of = as_of;
        order = order;
        volume_usd = volume_usd;
        started_at = started_at;
        pool_address = pool_address;
      })

    -- A cursor of the protocol catalogue.
    unfoldable pub decode_protocol_cursor : Blob → Result ApiError Protocol
    unfolding decode_b64_json
    decode_protocol_cursor raw = do
      wire ← decode_b64_json Shape.protocol raw
      ok_or (refused "unknown protocol") (find_label Protocols.as_str wire.protocol Protocols.all)

    -- A cursor of the announcements of the status.
    unfoldable pub decode_announcement_cursor :
        Blob → Option AnnouncementStatus → Result ApiError (AnnouncementCursor x)
    unfolding decode_b64_json
    decode_announcement_cursor raw status = do
      wire ← decode_b64_json Shape.announcement raw
      refuse_if (not (opt_str_eq wire.status (status_tag status))) "taken under another status"
      starts_at ← parse_rfc3339 x wire.starts_at
      ok (record { status = status; starts_at = starts_at; id = wire.id })

    -- A cursor of the mint's prices.
    unfoldable pub decode_token_price_cursor : Blob → Pubkey → Result ApiError (TokenPriceCursor x)
    unfolding decode_b64_json
    decode_token_price_cursor raw mint = do
      wire ← decode_b64_json Shape.token_price raw
      refuse_if (not (str_eq wire.mint (print_pubkey mint))) "taken in another list"
      from ← parse_rfc3339 x wire.from
      fetched_at ← parse_rfc3339 x wire.fetched_at
      ok (record { mint = mint; from = from; fetched_at = fetched_at })

    -- A cursor of the collection's events in the scope.
    unfoldable pub decode_event_cursor :
        Blob → EventCollection → EventScope x → Result ApiError (EventCursor x)
    unfolding decode_b64_json
    decode_event_cursor raw collection scope = do
      wire ← decode_b64_json Shape.event raw
      refuse_if
          (not (str_eq wire.collection (tag collection))
            || not (str_eq wire.scope (event_scope_tag x scope)))
          "taken in another list"
      from ← parse_rfc3339 x wire.from
      at ← parse_rfc3339 x wire.at
      signature ← ok_or (refused "malformed signature") (parse_signature wire.signature)
      ok (record {
        scope = scope;
        from = from;
        at = at;
        signature = signature;
        event_index = wire.event_index;
      })
