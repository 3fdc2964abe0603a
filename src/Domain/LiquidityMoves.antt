-- ===== src/Domain/LiquidityMoves.antt =====
-- crates/core/src/domain/liquidity_moves/model.rs: the kinds and the locks of a liquidity move.
use Prim.Native.String.{String}
use text.Mathlib.Text.{◌==◌ as str_eq}
use yog_sothoth.Prelude.{◌≡◌, refl, Option, none, some, List, [], ◌∷◌, if◌then◌else◌}

pub data LiquidityMoveKind : Type 0 where
  create : LiquidityMoveKind
  add : LiquidityMoveKind
  remove : LiquidityMoveKind

-- `None`, `Vesting` and `Permanent`.
pub data LiquidityMoveLock : Type 0 where
  unlocked : LiquidityMoveLock
  vesting : LiquidityMoveLock
  permanent : LiquidityMoveLock

pub data LiquidityMoveOrder : Type 0 where
  amount : LiquidityMoveOrder
  at_time : LiquidityMoveOrder

unfoldable pub kind_as_str : LiquidityMoveKind → String
kind_as_str create = "create"
kind_as_str add = "add"
kind_as_str remove = "remove"

lock_as_str : LiquidityMoveLock → String
lock_as_str unlocked = "none"
lock_as_str vesting = "vesting"
lock_as_str permanent = "permanent"

-- `find(|item| item.as_str() == label)`.
abbrev pub find_label : {A : Type 0} → (A → String) → String → List A → Option A
find_label tag label [] = none
find_label tag label (x ∷ xs) = if str_eq (tag x) label then some x else find_label tag label xs

kind_from_label : String → Option LiquidityMoveKind
kind_from_label label = find_label kind_as_str label (create ∷ add ∷ remove ∷ [])

lock_from_label : String → Option LiquidityMoveLock
lock_from_label label = find_label lock_as_str label (unlocked ∷ vesting ∷ permanent ∷ [])

kind_from_label-kind_as_str : (k : LiquidityMoveKind) → kind_from_label (kind_as_str k) ≡ some k
unfolding kind_from_label kind_as_str
kind_from_label-kind_as_str create = refl
kind_from_label-kind_as_str add = refl
kind_from_label-kind_as_str remove = refl

lock_from_label-lock_as_str : (l : LiquidityMoveLock) → lock_from_label (lock_as_str l) ≡ some l
unfolding lock_from_label lock_as_str
lock_from_label-lock_as_str unlocked = refl
lock_from_label-lock_as_str vesting = refl
lock_from_label-lock_as_str permanent = refl
