-- ===== src/Api/Wire.antt =====
-- The wire structs of crates/api/src/http/cursor.rs and what their derived (de)serialisers promise.
--
-- serde_json and base64 are the parameter `Codec`: a struct that was written is read back as it was,
-- if its integers fit their fields; and since every struct refuses unknown fields, a blob is
-- malformed for a struct that does not declare each field written, or that requires one more.
use Prim.Native.String.{String}
use text.Mathlib.Text.{◌==◌ as str_eq}
use yog_sothoth.Prelude.{
  ℕ, ◌^◌, ◌<◌, ◌≡◌, Bool, true, false, ◌&&◌, ◌||◌, Option, none, some, List, [], ◌∷◌, ◌++◌,
}
use yog_sothoth.Prelude.Int.{ℤ, pos, negsuc}
use yog_sothoth.Domain.Protocols.{Result, ok}

pub record SignalCursorWire : Type 0 where
  pub triggered_at : String
  pub id : ℤ

pub record TokenActivityCursorWire : Type 0 where
  pub last_hour : String
  pub volume_usd : String
  pub mint : String

pub record LiquidityMoveCursorWire : Type 0 where
  pub scope : String
  pub kind : Option String
  pub window : String
  pub as_of : String
  pub order : String
  pub amount_usd : String
  pub at : String
  pub signature : String
  pub event_index : ℤ

pub record ProtocolCursorWire : Type 0 where
  pub protocol : String

pub record PoolCursorWire : Type 0 where
  pub scope : String
  pub first_seen_at : String
  pub pool : String

pub record TokenCursorWire : Type 0 where
  pub fetched_at : String
  pub mint : String

pub record TokenPriceCursorWire : Type 0 where
  pub mint : String
  pub from : String
  pub fetched_at : String

pub record RotationRunCursorWire : Type 0 where
  pub scope : String
  pub window : String
  pub as_of : String
  pub order : String
  pub volume_usd : String
  pub started_at : String
  pub pool : String

pub record AnnouncementCursorWire : Type 0 where
  pub status : Option String
  pub starts_at : String
  pub id : ℤ

pub record EventCursorWire : Type 0 where
  pub collection : String
  pub scope : String
  pub from : String
  pub at : String
  pub signature : String
  pub event_index : ℕ

-- Which of the structs a blob is written from or read as.
pub data Shape : Type 0 where
  signal : Shape
  token_activity : Shape
  liquidity_move : Shape
  protocol : Shape
  pool : Shape
  token : Shape
  token_price : Shape
  rotation_run : Shape
  announcement : Shape
  event : Shape

abbrev pub Wire : Shape → Type 0
Wire Shape.signal = SignalCursorWire
Wire Shape.token_activity = TokenActivityCursorWire
Wire Shape.liquidity_move = LiquidityMoveCursorWire
Wire Shape.protocol = ProtocolCursorWire
Wire Shape.pool = PoolCursorWire
Wire Shape.token = TokenCursorWire
Wire Shape.token_price = TokenPriceCursorWire
Wire Shape.rotation_run = RotationRunCursorWire
Wire Shape.announcement = AnnouncementCursorWire
Wire Shape.event = EventCursorWire

-- The fields that a struct's object must hold.
abbrev pub required : Shape → List String
required Shape.signal = "triggered_at" ∷ "id" ∷ []
required Shape.token_activity = "last_hour" ∷ "volume_usd" ∷ "mint" ∷ []
required Shape.liquidity_move =
    "scope" ∷ "window" ∷ "as_of" ∷ "order" ∷ "amount_usd" ∷ "at" ∷ "signature" ∷ "event_index" ∷ []
required Shape.protocol = "protocol" ∷ []
required Shape.pool = "scope" ∷ "first_seen_at" ∷ "pool" ∷ []
required Shape.token = "fetched_at" ∷ "mint" ∷ []
required Shape.token_price = "mint" ∷ "from" ∷ "fetched_at" ∷ []
required Shape.rotation_run =
    "scope" ∷ "window" ∷ "as_of" ∷ "order" ∷ "volume_usd" ∷ "started_at" ∷ "pool" ∷ []
required Shape.announcement = "starts_at" ∷ "id" ∷ []
required Shape.event = "collection" ∷ "scope" ∷ "from" ∷ "at" ∷ "signature" ∷ "event_index" ∷ []

-- Those that it may hold: an `Option`.
abbrev pub optional : Shape → List String
optional Shape.liquidity_move = "kind" ∷ []
optional Shape.announcement = "status" ∷ []
optional _ = []

-- `skip_serializing_if = "Option::is_none"`.
abbrev pub unless_none : String → Option String → List String
unless_none name none = []
unless_none name (some _) = name ∷ []

-- The fields that the object of a struct holds.
abbrev pub written : (s : Shape) → Wire s → List String
written Shape.liquidity_move w = unless_none "kind" w.kind ++ required Shape.liquidity_move
written Shape.announcement w = "status" ∷ required Shape.announcement
written Shape.signal w = required Shape.signal
written Shape.token_activity w = required Shape.token_activity
written Shape.protocol w = required Shape.protocol
written Shape.pool w = required Shape.pool
written Shape.token w = required Shape.token
written Shape.token_price w = required Shape.token_price
written Shape.rotation_run w = required Shape.rotation_run
written Shape.event w = required Shape.event

abbrev pub holds : String → List String → Bool
holds name [] = false
holds name (n ∷ ns) = str_eq name n || holds name ns

abbrev pub holds_all : List String → List String → Bool
holds_all [] there = true
holds_all (n ∷ ns) there = holds n there && holds_all ns there

-- Whether a struct takes an object with these fields.
unfoldable pub accepts : Shape → List String → Bool
accepts s names = holds_all (required s) names && holds_all names (optional s ++ required s)

abbrev pub IsI64 : ℤ → Type 0
IsI64 (pos n) = n < 2 ^ 63
IsI64 (negsuc n) = n < 2 ^ 63

abbrev pub IsI32 : ℤ → Type 0
IsI32 (pos n) = n < 2 ^ 31
IsI32 (negsuc n) = n < 2 ^ 31

-- The integers of a struct fit their types: `i64`, `i32`, `u16`.
abbrev pub Fits : (s : Shape) → Wire s → Type 0
Fits Shape.signal w = IsI64 w.id
Fits Shape.liquidity_move w = IsI32 w.event_index
Fits Shape.announcement w = IsI64 w.id
Fits Shape.event w = w.event_index < 2 ^ 16
Fits _ w = Unit

pub data Read (A : Type 0) : Type 0 where
  not_base64 : Read A
  malformed : Read A
  parsed : A → Read A

pub record Codec : Type 1 where
  pub Blob : Type 0
  pub write : (s : Shape) → Wire s → Result String Blob
  pub read : (s : Shape) → Blob → Read (Wire s)
  pub read-write :
      (s : Shape) (w : Wire s) (raw : Blob) → Fits s w → write s w ≡ ok raw → read s raw ≡ parsed w
  pub read-write_other :
      (s t : Shape) (w : Wire s) (raw : Blob)
      → write s w ≡ ok raw
      → accepts t (written s w) ≡ false
      → read t raw ≡ malformed
