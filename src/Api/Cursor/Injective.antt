-- ===== src/Api/Cursor/Injective.antt =====
-- The tags of crates/api/src/http/cursor.rs, compared.
use Prim.Native.String.{String, ◌++◌ as concat}
use yog_sothoth.Prelude.{◌≡◌, refl, sym, ap, ◌∙◌, Option, none, some, List, [], ◌∷◌}
use yog_sothoth.Prelude.Text.{concat_rest, concat_apart}
use yog_sothoth.Domain.Announcements
use yog_sothoth.Domain.Announcements.{AnnouncementStatus, status_from_str-status_as_str}
use yog_sothoth.Domain.Cursors.{
  External, EventScope, PoolScope, LiquidityMoveScope, RotationRunScope, RotationRunOrder,
  all_events, protocol_events, pool_events, all_pools, protocol_pools, token_pools, protocol_moves,
  pool_moves, protocol_runs, pool_runs, volume, at_start,
}
use yog_sothoth.Domain.LiquidityMoves
use yog_sothoth.Domain.LiquidityMoves.{LiquidityMoveKind, LiquidityMoveOrder, find_label}
use yog_sothoth.Domain.Protocols
use yog_sothoth.Domain.Protocols.{Protocol, ok}
use yog_sothoth.Domain.Windows
use yog_sothoth.Domain.Windows.{Window}
use yog_sothoth.Api.Cursor.Tags.{
  EventCollection, swaps, liquidity_changes, pool_creations, position_changes, position_fee_claims,
  protocol_fee_claims, reward_claims, reward_changes, pool_changes, tag, order_tag,
  rotation_run_order_tag, kind_tag, status_tag, event_scope_tag, scope_tag,
  liquidity_move_scope_tag, rotation_run_scope_tag,
}

-- A tag by which a list finds each item names one item only.
label_injective :
    {A : Type 0} (label : A → String) (items : List A)
    → ((a : A) → find_label label (label a) items ≡ some a)
    → (a b : A) → label a ≡ label b
    → a ≡ b
label_injective label items found a b h =
    let same : some a ≡ some b = sym (found a) ∙ ap (λ t. find_label label t items) h ∙ found b in
    cc

collections : List EventCollection
collections =
    swaps ∷ liquidity_changes ∷ pool_creations ∷ position_changes ∷ position_fee_claims
    ∷ protocol_fee_claims ∷ reward_claims ∷ reward_changes ∷ pool_changes ∷ []

find_collection : (c : EventCollection) → find_label tag (tag c) collections ≡ some c
unfolding tag collections
find_collection swaps = refl
find_collection liquidity_changes = refl
find_collection pool_creations = refl
find_collection position_changes = refl
find_collection position_fee_claims = refl
find_collection protocol_fee_claims = refl
find_collection reward_claims = refl
find_collection reward_changes = refl
find_collection pool_changes = refl

pub tag-injective : (a b : EventCollection) → tag a ≡ tag b → a ≡ b
tag-injective = label_injective tag collections find_collection

pub find_protocol_label :
    (p : Protocol) → find_label Protocols.as_str (Protocols.as_str p) Protocols.all ≡ some p
unfolding Protocols.as_str Protocols.all
find_protocol_label Protocol.meteora_damm_v2 = refl
find_protocol_label Protocol.meteora_dlmm = refl

pub find_window_label :
    (w : Window) → find_label Windows.as_str (Windows.as_str w) (Window.hour ∷ Windows.all) ≡ some w
unfolding Windows.as_str Windows.all
find_window_label Window.hour = refl
find_window_label Window.day = refl
find_window_label Window.week = refl
find_window_label Window.month = refl

protocol-injective : (p q : Protocol) → Protocols.as_str p ≡ Protocols.as_str q → p ≡ q
protocol-injective = label_injective Protocols.as_str Protocols.all find_protocol_label

pub window-injective : (v w : Window) → Windows.as_str v ≡ Windows.as_str w → v ≡ w
window-injective = label_injective Windows.as_str (Window.hour ∷ Windows.all) find_window_label

orders : List LiquidityMoveOrder
orders = LiquidityMoveOrder.amount ∷ LiquidityMoveOrder.at_time ∷ []

find_order : (o : LiquidityMoveOrder) → find_label order_tag (order_tag o) orders ≡ some o
unfolding order_tag orders
find_order LiquidityMoveOrder.amount = refl
find_order LiquidityMoveOrder.at_time = refl

pub order_tag-injective : (a b : LiquidityMoveOrder) → order_tag a ≡ order_tag b → a ≡ b
order_tag-injective = label_injective order_tag orders find_order

run_orders : List RotationRunOrder
run_orders = volume ∷ at_start ∷ []

find_run_order :
    (o : RotationRunOrder)
    → find_label rotation_run_order_tag (rotation_run_order_tag o) run_orders ≡ some o
unfolding rotation_run_order_tag run_orders
find_run_order volume = refl
find_run_order at_start = refl

pub rotation_run_order_tag-injective :
    (a b : RotationRunOrder) → rotation_run_order_tag a ≡ rotation_run_order_tag b → a ≡ b
rotation_run_order_tag-injective = label_injective rotation_run_order_tag run_orders find_run_order

kinds : List LiquidityMoveKind
kinds = LiquidityMoveKind.create ∷ LiquidityMoveKind.add ∷ LiquidityMoveKind.remove ∷ []

find_kind :
    (k : LiquidityMoveKind)
    → find_label LiquidityMoves.kind_as_str (LiquidityMoves.kind_as_str k) kinds ≡ some k
unfolding LiquidityMoves.kind_as_str kinds
find_kind LiquidityMoveKind.create = refl
find_kind LiquidityMoveKind.add = refl
find_kind LiquidityMoveKind.remove = refl

pub kind_tag-injective : (a b : Option LiquidityMoveKind) → kind_tag a ≡ kind_tag b → a ≡ b
kind_tag-injective none none h = refl
kind_tag-injective none (some b) h = cc
kind_tag-injective (some a) none h = cc
kind_tag-injective (some a) (some b) h =
    ap some (label_injective LiquidityMoves.kind_as_str kinds find_kind a b (cc))

statuses : List AnnouncementStatus
statuses = AnnouncementStatus.upcoming ∷ AnnouncementStatus.opened ∷ AnnouncementStatus.closed ∷ []

find_status :
    (s : AnnouncementStatus)
    → find_label Announcements.status_as_str (Announcements.status_as_str s) statuses ≡ some s
unfolding Announcements.status_as_str statuses
find_status AnnouncementStatus.upcoming = refl
find_status AnnouncementStatus.opened = refl
find_status AnnouncementStatus.closed = refl

pub status_tag-injective : (a b : Option AnnouncementStatus) → status_tag a ≡ status_tag b → a ≡ b
status_tag-injective none none h = refl
status_tag-injective none (some b) h = cc
status_tag-injective (some a) none h = cc
status_tag-injective (some a) (some b) h =
    ap some (label_injective Announcements.status_as_str statuses find_status a b (cc))

-- The three prefixes and `all` begin differently.
all-protocol : (y : String) → "all" ≡ concat "protocol:" y → ⊥
all-protocol y h = concat_apart "all" "pro" "" "tocol:" "" y refl refl h

all-pool : (y : String) → "all" ≡ concat "pool:" y → ⊥
all-pool y h = concat_apart "all" "poo" "" "l:" "" y refl refl h

all-token : (y : String) → "all" ≡ concat "token:" y → ⊥
all-token y h = concat_apart "all" "tok" "" "en:" "" y refl refl h

protocol-pool : (y z : String) → concat "protocol:" y ≡ concat "pool:" z → ⊥
protocol-pool y z h = concat_apart "pro" "poo" "tocol:" "l:" y z refl refl h

protocol-token : (y z : String) → concat "protocol:" y ≡ concat "token:" z → ⊥
protocol-token y z h = concat_apart "pro" "tok" "tocol:" "en:" y z refl refl h

module _ (x : External) where
  open x use {Pubkey, print_pubkey, parse_pubkey, parse-print_pubkey}

  pub pubkey-injective : (p q : Pubkey) → print_pubkey p ≡ print_pubkey q → p ≡ q
  pubkey-injective p q h =
      let same : some p ≡ some q =
        sym (parse-print_pubkey p) ∙ ap parse_pubkey h ∙ parse-print_pubkey q in
      cc

  protocol_rest :
      (p q : Protocol)
      → concat "protocol:" (Protocols.as_str p) ≡ concat "protocol:" (Protocols.as_str q)
      → p ≡ q
  protocol_rest p q h = protocol-injective p q (concat_rest "protocol:" _ _ h)

  key_rest :
      (prefix : String) (p q : Pubkey)
      → concat prefix (print_pubkey p) ≡ concat prefix (print_pubkey q)
      → p ≡ q
  key_rest prefix p q h = pubkey-injective p q (concat_rest prefix _ _ h)

  pub event_scope_tag-injective :
      (a b : EventScope x) → event_scope_tag x a ≡ event_scope_tag x b → a ≡ b
  unfolding event_scope_tag
  event_scope_tag-injective all_events all_events h = refl
  event_scope_tag-injective all_events (protocol_events q) h = absurd (all-protocol _ h)
  event_scope_tag-injective all_events (pool_events q) h = absurd (all-pool _ h)
  event_scope_tag-injective (protocol_events p) all_events h = absurd (all-protocol _ (sym h))
  event_scope_tag-injective (protocol_events p) (protocol_events q) h =
      ap protocol_events (protocol_rest p q h)
  event_scope_tag-injective (protocol_events p) (pool_events q) h = absurd (protocol-pool _ _ h)
  event_scope_tag-injective (pool_events p) all_events h = absurd (all-pool _ (sym h))
  event_scope_tag-injective (pool_events p) (protocol_events q) h =
      absurd (protocol-pool _ _ (sym h))
  event_scope_tag-injective (pool_events p) (pool_events q) h =
      ap pool_events (key_rest "pool:" p q h)

  pub scope_tag-injective : (a b : PoolScope x) → scope_tag x a ≡ scope_tag x b → a ≡ b
  unfolding scope_tag
  scope_tag-injective all_pools all_pools h = refl
  scope_tag-injective all_pools (protocol_pools q) h = absurd (all-protocol _ h)
  scope_tag-injective all_pools (token_pools q) h = absurd (all-token _ h)
  scope_tag-injective (protocol_pools p) all_pools h = absurd (all-protocol _ (sym h))
  scope_tag-injective (protocol_pools p) (protocol_pools q) h =
      ap protocol_pools (protocol_rest p q h)
  scope_tag-injective (protocol_pools p) (token_pools q) h = absurd (protocol-token _ _ h)
  scope_tag-injective (token_pools p) all_pools h = absurd (all-token _ (sym h))
  scope_tag-injective (token_pools p) (protocol_pools q) h = absurd (protocol-token _ _ (sym h))
  scope_tag-injective (token_pools p) (token_pools q) h = ap token_pools (key_rest "token:" p q h)

  pub liquidity_move_scope_tag-injective :
      (a b : LiquidityMoveScope x)
      → liquidity_move_scope_tag x a ≡ liquidity_move_scope_tag x b
      → a ≡ b
  unfolding liquidity_move_scope_tag
  liquidity_move_scope_tag-injective (protocol_moves p) (protocol_moves q) h =
      ap protocol_moves (protocol_rest p q h)
  liquidity_move_scope_tag-injective (protocol_moves p) (pool_moves q) h =
      absurd (protocol-pool _ _ h)
  liquidity_move_scope_tag-injective (pool_moves p) (protocol_moves q) h =
      absurd (protocol-pool _ _ (sym h))
  liquidity_move_scope_tag-injective (pool_moves p) (pool_moves q) h =
      ap pool_moves (key_rest "pool:" p q h)

  pub rotation_run_scope_tag-injective :
      (a b : RotationRunScope x) → rotation_run_scope_tag x a ≡ rotation_run_scope_tag x b → a ≡ b
  unfolding rotation_run_scope_tag
  rotation_run_scope_tag-injective (protocol_runs p) (protocol_runs q) h =
      ap protocol_runs (protocol_rest p q h)
  rotation_run_scope_tag-injective (protocol_runs p) (pool_runs q) h = absurd (protocol-pool _ _ h)
  rotation_run_scope_tag-injective (pool_runs p) (protocol_runs q) h =
      absurd (protocol-pool _ _ (sym h))
  rotation_run_scope_tag-injective (pool_runs p) (pool_runs q) h =
      ap pool_runs (key_rest "pool:" p q h)
