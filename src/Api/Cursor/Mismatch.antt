-- ===== src/Api/Cursor/Mismatch.antt =====
-- The decoders of crates/api/src/http/cursor.rs on the structs of other lists.
use Prim.Native.String.{String}
use text.Mathlib.Text.{◌==◌ as str_eq}
use text.Mathlib.TextEquality.{eq_iff}
use yog_sothoth.Prelude.{◌≡◌, ◌≢◌, refl, false, Option, none, some, ◌++◌, inl, inr, Bool-cases}
use yog_sothoth.Prelude.Text.{opt_str_eq, opt_str_eq→eq}
use yog_sothoth.Domain.Announcements.{AnnouncementStatus}
use yog_sothoth.Domain.Cursors.{
  External, EventScope, PoolScope, RotationRunScope, RotationRunOrder, LiquidityMoveList,
  LiquidityMoveCursor, PoolCursor, TokenPriceCursor, EventCursor, AnnouncementCursor,
  RotationRunCursor,
}
use yog_sothoth.Domain.LiquidityMoves.{LiquidityMoveOrder}
use yog_sothoth.Domain.Protocols.{Result, ok, err}
use yog_sothoth.Domain.Windows
use yog_sothoth.Domain.Windows.{Window}
use yog_sothoth.Api.Errors.{ApiError, bad_request}
use yog_sothoth.Api.Wire.{
  Codec, Shape, Wire, required, written, unless_none, accepts, parsed, malformed,
}
use yog_sothoth.Api.Cursor.Tags.{
  EventCollection, tag, order_tag, rotation_run_order_tag, kind_tag, status_tag, event_scope_tag,
  scope_tag, liquidity_move_scope_tag, rotation_run_scope_tag,
}
use yog_sothoth.Api.Cursor.Injective.{
  tag-injective, window-injective, order_tag-injective, rotation_run_order_tag-injective,
  kind_tag-injective, status_tag-injective, pubkey-injective, event_scope_tag-injective,
  scope_tag-injective, liquidity_move_scope_tag-injective, rotation_run_scope_tag-injective,
}
use yog_sothoth.Api.Cursor.Encode.{
  encode_b64_json, pool_wire, token_price_wire, event_wire, announcement_wire, rotation_run_wire,
  liquidity_move_wire,
}
use yog_sothoth.Api.Cursor.Decode.{
  decode_signal_cursor, decode_token_activity_cursor, decode_liquidity_move_cursor,
  decode_pool_cursor, decode_token_cursor, decode_rotation_run_cursor, decode_protocol_cursor,
  decode_announcement_cursor, decode_token_price_cursor, decode_event_cursor,
}
use yog_sothoth.Api.Cursor.RoundTrip.{encode_b64_json-write}
use yog_sothoth.Api.Cursor.Lists.{
  ListKey, signals, token_activities, moves, pools, tokens, prices, events, announcements, runs,
  protocols, decode_for,
}

-- The answer is a bad request.
abbrev pub Refuses : {A : Type 0} → Result ApiError A → Type 0
Refuses r = (m : String) × (r ≡ err (bad_request m))

moves_or_not :
    (t : Shape) (kind : Option String)
    → t ≢ Shape.liquidity_move
    → accepts t (unless_none "kind" kind ++ required Shape.liquidity_move) ≡ false
unfolding accepts
moves_or_not Shape.liquidity_move kind ne = absurd (ne refl)
moves_or_not Shape.signal none ne = refl
moves_or_not _ none ne = refl
moves_or_not _ (some k) ne = refl

-- No struct takes the fields of another.
accepts-written : (s t : Shape) (w : Wire s) → t ≢ s → accepts t (written s w) ≡ false
unfolding accepts
accepts-written Shape.liquidity_move t w ne = moves_or_not t w.kind ne
accepts-written Shape.signal Shape.signal w ne = absurd (ne refl)
accepts-written Shape.token_activity Shape.token_activity w ne = absurd (ne refl)
accepts-written Shape.protocol Shape.protocol w ne = absurd (ne refl)
accepts-written Shape.pool Shape.pool w ne = absurd (ne refl)
accepts-written Shape.token Shape.token w ne = absurd (ne refl)
accepts-written Shape.token_price Shape.token_price w ne = absurd (ne refl)
accepts-written Shape.rotation_run Shape.rotation_run w ne = absurd (ne refl)
accepts-written Shape.announcement Shape.announcement w ne = absurd (ne refl)
accepts-written Shape.event Shape.event w ne = absurd (ne refl)
accepts-written _ _ w ne = refl

module _ (x : External) where
  open x use {Pubkey, print_pubkey}

  abbrev pub shape_of : ListKey x → Shape
  shape_of signals = Shape.signal
  shape_of token_activities = Shape.token_activity
  shape_of (moves list order) = Shape.liquidity_move
  shape_of (pools scope) = Shape.pool
  shape_of tokens = Shape.token
  shape_of (prices mint) = Shape.token_price
  shape_of (events collection scope) = Shape.event
  shape_of (announcements status) = Shape.announcement
  shape_of (runs scope window order) = Shape.rotation_run
  shape_of protocols = Shape.protocol

  module _ (codec : Codec) where
    open codec use {Blob, read, read-write_other}

    decode_for_malformed :
        (k : ListKey x) (raw : Blob)
        → read (shape_of k) raw ≡ malformed
        → Refuses (decode_for x codec k raw)
    unfolding decode_for decode_signal_cursor decode_token_activity_cursor
        decode_liquidity_move_cursor decode_pool_cursor decode_token_cursor
        decode_rotation_run_cursor decode_protocol_cursor decode_announcement_cursor
        decode_token_price_cursor decode_event_cursor
    decode_for_malformed signals raw h = ("invalid cursor: malformed payload", rw h)
    decode_for_malformed token_activities raw h = ("invalid cursor: malformed payload", rw h)
    decode_for_malformed (moves list order) raw h = ("invalid cursor: malformed payload", rw h)
    decode_for_malformed (pools scope) raw h = ("invalid cursor: malformed payload", rw h)
    decode_for_malformed tokens raw h = ("invalid cursor: malformed payload", rw h)
    decode_for_malformed (prices mint) raw h = ("invalid cursor: malformed payload", rw h)
    decode_for_malformed (events collection scope) raw h =
        ("invalid cursor: malformed payload", rw h)
    decode_for_malformed (announcements status) raw h = ("invalid cursor: malformed payload", rw h)
    decode_for_malformed (runs scope window order) raw h =
        ("invalid cursor: malformed payload", rw h)
    decode_for_malformed protocols raw h = ("invalid cursor: malformed payload", rw h)

    -- A blob written from one struct is refused by every list of another struct.
    pub other_shape :
        (s : Shape) (w : Wire s) (k : ListKey x) (raw : Blob)
        → encode_b64_json codec s w ≡ ok raw
        → shape_of k ≢ s
        → Refuses (decode_for x codec k raw)
    other_shape s w k raw h ne = decode_for_malformed k raw (
        read-write_other s (shape_of k) w raw (encode_b64_json-write codec s w raw h)
          (accepts-written s (shape_of k) w ne))

    pub other_pool :
        (c : PoolCursor x) (scope : PoolScope x) (raw : Blob)
        → read Shape.pool raw ≡ parsed (pool_wire x c)
        → c.scope ≢ scope
        → Refuses (decode_for x codec (pools scope) raw)
    unfolding decode_for decode_pool_cursor
    other_pool c scope raw h ne =
        elim (Bool-cases (str_eq (scope_tag x c.scope) (scope_tag x scope))) [
          | inl e ↦ absurd (ne (scope_tag-injective x _ _ ((eq_iff _ _).0 e)))
          | inr e ↦ ("invalid cursor: taken in another list", rw (h, e))
        ]

    pub other_mint :
        (c : TokenPriceCursor x) (mint : Pubkey) (raw : Blob)
        → read Shape.token_price raw ≡ parsed (token_price_wire x c)
        → c.mint ≢ mint
        → Refuses (decode_for x codec (prices mint) raw)
    unfolding decode_for decode_token_price_cursor
    other_mint c mint raw h ne =
        elim (Bool-cases (str_eq (print_pubkey c.mint) (print_pubkey mint))) [
          | inl e ↦ absurd (ne (pubkey-injective x _ _ ((eq_iff _ _).0 e)))
          | inr e ↦ ("invalid cursor: taken in another list", rw (h, e))
        ]

    pub other_status :
        (c : AnnouncementCursor x) (status : Option AnnouncementStatus) (raw : Blob)
        → read Shape.announcement raw ≡ parsed (announcement_wire x c)
        → c.status ≢ status
        → Refuses (decode_for x codec (announcements status) raw)
    unfolding decode_for decode_announcement_cursor
    other_status c status raw h ne =
        elim (Bool-cases (opt_str_eq (status_tag c.status) (status_tag status))) [
          | inl e ↦ absurd (ne (status_tag-injective _ _ (opt_str_eq→eq _ _ e)))
          | inr e ↦ ("invalid cursor: taken under another status", rw (h, e))
        ]

    pub other_event :
        (own : EventCollection) (c : EventCursor x) (collection : EventCollection)
        (scope : EventScope x) (raw : Blob)
        → read Shape.event raw ≡ parsed (event_wire x own c)
        → events own c.scope ≢ events collection scope
        → Refuses (decode_for x codec (events collection scope) raw)
    unfolding decode_for decode_event_cursor
    other_event own c collection scope raw h ne =
        elim (Bool-cases (str_eq (tag own) (tag collection))) [
          | inr e ↦ ("invalid cursor: taken in another list", rw (h, e))
          | inl e ↦
              elim (Bool-cases (str_eq (event_scope_tag x c.scope) (event_scope_tag x scope))) [
                | inr f ↦ ("invalid cursor: taken in another list", rw (h, e, f))
                | inl f ↦
                    let same : own ≡ collection = tag-injective _ _ ((eq_iff _ _).0 e) in
                    let in_scope : c.scope ≡ scope =
                      event_scope_tag-injective x _ _ ((eq_iff _ _).0 f) in
                    absurd (ne (cc))
              ]
        ]

    pub other_moves :
        (c : LiquidityMoveCursor x) (list : LiquidityMoveList x) (order : LiquidityMoveOrder)
        (raw : Blob)
        → read Shape.liquidity_move raw ≡ parsed (liquidity_move_wire x c)
        → moves c.list c.order ≢ moves list order
        → Refuses (decode_for x codec (moves list order) raw)
    unfolding decode_for decode_liquidity_move_cursor
    other_moves c list order raw h ne =
        elim (Bool-cases (
          str_eq (liquidity_move_scope_tag x c.list.scope)
            (liquidity_move_scope_tag x list.scope))) [
              | inr e ↦ ("invalid cursor: taken in another list", rw (h, e))
              | inl e ↦ elim (Bool-cases (opt_str_eq (kind_tag c.list.kind) (kind_tag list.kind))) [
                | inr f ↦ ("invalid cursor: taken in another list", rw (h, e, f))
                | inl f ↦ elim (Bool-cases (str_eq (order_tag c.order) (order_tag order))) [
                  | inr g ↦ ("invalid cursor: taken in another order", rw (h, e, f, g))
                  | inl g ↦
                      let in_scope : c.list.scope ≡ list.scope =
                        liquidity_move_scope_tag-injective x _ _ ((eq_iff _ _).0 e) in
                      let of_kind : c.list.kind ≡ list.kind =
                        kind_tag-injective _ _ (opt_str_eq→eq _ _ f) in
                      let in_order : c.order ≡ order = order_tag-injective _ _ ((eq_iff _ _).0 g) in
                      absurd (ne (cc))
                ]
              ]
            ]

    pub other_runs :
        (c : RotationRunCursor x) (scope : RotationRunScope x) (window : Window)
        (order : RotationRunOrder) (raw : Blob)
        → read Shape.rotation_run raw ≡ parsed (rotation_run_wire x c)
        → runs c.scope c.window c.order ≢ runs scope window order
        → Refuses (decode_for x codec (runs scope window order) raw)
    unfolding decode_for decode_rotation_run_cursor
    other_runs c scope window order raw h ne =
        elim (Bool-cases
          (str_eq (rotation_run_scope_tag x c.scope) (rotation_run_scope_tag x scope))) [
            | inr e ↦ ("invalid cursor: taken in another list", rw (h, e))
            | inl e ↦ elim (Bool-cases (str_eq (Windows.as_str c.window) (Windows.as_str window))) [
              | inr f ↦ ("invalid cursor: taken in another list", rw (h, e, f))
              | inl f ↦
                  elim (Bool-cases
                    (str_eq (rotation_run_order_tag c.order) (rotation_run_order_tag order))) [
                      | inr g ↦ ("invalid cursor: taken in another list", rw (h, e, f, g))
                      | inl g ↦
                          let in_scope : c.scope ≡ scope =
                            rotation_run_scope_tag-injective x _ _ ((eq_iff _ _).0 e) in
                          let over : c.window ≡ window = window-injective _ _ ((eq_iff _ _).0 f) in
                          let in_order : c.order ≡ order =
                            rotation_run_order_tag-injective _ _ ((eq_iff _ _).0 g) in
                          absurd (ne (cc))
                    ]
            ]
          ]
