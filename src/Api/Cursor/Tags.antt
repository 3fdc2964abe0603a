-- ===== src/Api/Cursor/Tags.antt =====
-- The tags of crates/api/src/http/cursor.rs: how a collection, a scope, a kind, a status and an order
-- are written in a cursor.
use Prim.Native.String.{String, ◌++◌ as concat}
use yog_sothoth.Prelude.{Option, none, some}
use yog_sothoth.Domain.Announcements
use yog_sothoth.Domain.Announcements.{AnnouncementStatus}
use yog_sothoth.Domain.Cursors.{
  External, EventScope, PoolScope, LiquidityMoveScope, RotationRunScope, RotationRunOrder,
  all_events, protocol_events, pool_events, all_pools, protocol_pools, token_pools, protocol_moves,
  pool_moves, protocol_runs, pool_runs, volume, at_start,
}
use yog_sothoth.Domain.LiquidityMoves
use yog_sothoth.Domain.LiquidityMoves.{LiquidityMoveKind, LiquidityMoveOrder, find_label}
use yog_sothoth.Domain.Protocols
use yog_sothoth.Domain.Protocols.{Protocol, Result, ok, err}
use yog_sothoth.Api.Errors.{ApiError, bad_request, ok_or}

-- The on-chain collections that a page of events is read from.
pub data EventCollection : Type 0 where
  swaps : EventCollection
  liquidity_changes : EventCollection
  pool_creations : EventCollection
  position_changes : EventCollection
  position_fee_claims : EventCollection
  protocol_fee_claims : EventCollection
  reward_claims : EventCollection
  reward_changes : EventCollection
  pool_changes : EventCollection

unfoldable pub tag : EventCollection → String
tag swaps = "swaps"
tag liquidity_changes = "liquidity-changes"
tag pool_creations = "pool-creations"
tag position_changes = "position-changes"
tag position_fee_claims = "position-fee-claims"
tag protocol_fee_claims = "protocol-fee-claims"
tag reward_claims = "reward-claims"
tag reward_changes = "reward-changes"
tag pool_changes = "pool-changes"

unfoldable pub order_tag : LiquidityMoveOrder → String
order_tag LiquidityMoveOrder.amount = "amount"
order_tag LiquidityMoveOrder.at_time = "at"

unfoldable pub rotation_run_order_tag : RotationRunOrder → String
rotation_run_order_tag volume = "volume"
rotation_run_order_tag at_start = "at"

abbrev pub kind_tag : Option LiquidityMoveKind → Option String
kind_tag none = none
kind_tag (some k) = some (LiquidityMoves.kind_as_str k)

abbrev pub status_tag : Option AnnouncementStatus → Option String
status_tag none = none
status_tag (some s) = some (Announcements.status_as_str s)

-- What a decoder refuses, by the text that follows `invalid cursor: `.
abbrev pub refused : String → ApiError
refused reason = bad_request (concat "invalid cursor: " reason)

module _ (x : External) where
  open x use {
    Instant, Decimal, Pubkey, Signature, to_rfc3339, parse_from_rfc3339, print_decimal,
    parse_decimal, print_pubkey, parse_pubkey, print_signature, parse_signature,
  }

  unfoldable pub event_scope_tag : EventScope x → String
  event_scope_tag all_events = "all"
  event_scope_tag (protocol_events protocol) = concat "protocol:" (Protocols.as_str protocol)
  event_scope_tag (pool_events pool) = concat "pool:" (print_pubkey pool)

  unfoldable pub scope_tag : PoolScope x → String
  scope_tag all_pools = "all"
  scope_tag (protocol_pools protocol) = concat "protocol:" (Protocols.as_str protocol)
  scope_tag (token_pools mint) = concat "token:" (print_pubkey mint)

  unfoldable pub liquidity_move_scope_tag : LiquidityMoveScope x → String
  liquidity_move_scope_tag (protocol_moves protocol) =
      concat "protocol:" (Protocols.as_str protocol)
  liquidity_move_scope_tag (pool_moves pool) = concat "pool:" (print_pubkey pool)

  unfoldable pub rotation_run_scope_tag : RotationRunScope x → String
  rotation_run_scope_tag (protocol_runs protocol) = concat "protocol:" (Protocols.as_str protocol)
  rotation_run_scope_tag (pool_runs pool) = concat "pool:" (print_pubkey pool)

  unfoldable pub parse_rfc3339 : String → Result ApiError Instant
  parse_rfc3339 raw = ok_or (refused "malformed timestamp") (parse_from_rfc3339 raw)
