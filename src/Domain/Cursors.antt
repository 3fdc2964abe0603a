-- ===== src/Domain/Cursors.antt =====
-- crates/core/src/tools/pagination.rs and the cursors that crates/core/src/domain keeps beside each
-- list: the key of a page's last item, and the list it was read from.
use Prim.Native.String.{String}
use yog_sothoth.Prelude.{ℕ, ◌≡◌, Option, some}
use yog_sothoth.Prelude.Int.{ℤ}
use yog_sothoth.Domain.Protocols.{Protocol}
use yog_sothoth.Domain.Windows.{Window}
use yog_sothoth.Domain.Announcements.{AnnouncementStatus}
use yog_sothoth.Domain.LiquidityMoves.{LiquidityMoveKind, LiquidityMoveOrder}

-- chrono's instants, rust_decimal's numbers and Solana's keys and signatures: each is printed, and
-- what was printed is read back.
pub record External : Type 1 where
  pub Instant : Type 0
  pub Decimal : Type 0
  pub Pubkey : Type 0
  pub Signature : Type 0
  pub to_rfc3339 : Instant → String
  pub parse_from_rfc3339 : String → Option Instant
  pub parse-to_rfc3339 : (t : Instant) → parse_from_rfc3339 (to_rfc3339 t) ≡ some t
  pub print_decimal : Decimal → String
  pub parse_decimal : String → Option Decimal
  pub parse-print_decimal : (d : Decimal) → parse_decimal (print_decimal d) ≡ some d
  pub print_pubkey : Pubkey → String
  pub parse_pubkey : String → Option Pubkey
  pub parse-print_pubkey : (p : Pubkey) → parse_pubkey (print_pubkey p) ≡ some p
  pub print_signature : Signature → String
  pub parse_signature : String → Option Signature
  pub parse-print_signature : (s : Signature) → parse_signature (print_signature s) ≡ some s

pub data RotationRunOrder : Type 0 where
  volume : RotationRunOrder
  at_start : RotationRunOrder

module _ (x : External) where
  open x use {Instant, Decimal, Pubkey, Signature}

  pub data EventScope : Type 0 where
    all_events : EventScope
    protocol_events : Protocol → EventScope
    pool_events : Pubkey → EventScope

  pub data PoolScope : Type 0 where
    all_pools : PoolScope
    protocol_pools : Protocol → PoolScope
    token_pools : Pubkey → PoolScope

  pub data LiquidityMoveScope : Type 0 where
    protocol_moves : Protocol → LiquidityMoveScope
    pool_moves : Pubkey → LiquidityMoveScope

  pub data RotationRunScope : Type 0 where
    protocol_runs : Protocol → RotationRunScope
    pool_runs : Pubkey → RotationRunScope

  pub record LiquidityMoveList : Type 0 where
    pub scope : LiquidityMoveScope
    pub kind : Option LiquidityMoveKind

  pub record SignalCursor : Type 0 where
    pub triggered_at : Instant
    pub id : ℤ

  pub record TokenActivityCursor : Type 0 where
    pub last_hour : Instant
    pub volume_usd : Decimal
    pub mint : Pubkey

  pub record LiquidityMoveCursor : Type 0 where
    pub list : LiquidityMoveList
    pub window : Window
    pub as_of : Instant
    pub order : LiquidityMoveOrder
    pub amount_usd : Decimal
    pub at : Instant
    pub signature : String
    pub event_index : ℤ

  pub record PoolCursor : Type 0 where
    pub scope : PoolScope
    pub first_seen_at : Instant
    pub pool_address : Pubkey

  pub record TokenCursor : Type 0 where
    pub fetched_at : Instant
    pub mint : Pubkey

  pub record TokenPriceCursor : Type 0 where
    pub mint : Pubkey
    pub from : Instant
    pub fetched_at : Instant

  pub record EventCursor : Type 0 where
    pub scope : EventScope
    pub from : Instant
    pub at : Instant
    pub signature : Signature
    pub event_index : ℕ

  pub record AnnouncementCursor : Type 0 where
    pub status : Option AnnouncementStatus
    pub starts_at : Instant
    pub id : ℤ

  pub record RotationRunCursor : Type 0 where
    pub scope : RotationRunScope
    pub window : Window
    pub as_of : Instant
    pub order : RotationRunOrder
    pub volume_usd : Decimal
    pub started_at : Instant
    pub pool_address : Pubkey

  -- One variant per paginated list.
  pub data Cursor : Type 0 where
    signal : SignalCursor → Cursor
    token_activity : TokenActivityCursor → Cursor
    liquidity_move : LiquidityMoveCursor → Cursor
    pool : PoolCursor → Cursor
    token : TokenCursor → Cursor
    token_price : TokenPriceCursor → Cursor
    swap_event : EventCursor → Cursor
    liquidity_change_event : EventCursor → Cursor
    pool_creation_event : EventCursor → Cursor
    position_change_event : EventCursor → Cursor
    position_fee_claim_event : EventCursor → Cursor
    protocol_fee_claim_event : EventCursor → Cursor
    reward_claim_event : EventCursor → Cursor
    reward_change_event : EventCursor → Cursor
    pool_change_event : EventCursor → Cursor
    announcement : AnnouncementCursor → Cursor
    rotation_run : RotationRunCursor → Cursor
    protocol : Protocol → Cursor
