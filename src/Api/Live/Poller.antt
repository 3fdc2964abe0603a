-- ===== src/Api/Live/Poller.antt =====
-- crates/api/src/application/live/poller.rs: one source's poller. What wakes each tick, who listens
-- and what the source answers comes from outside, a tick after another.
use yog_sothoth.Prelude.{ℕ, Bool, Option, none, some, List, [], ◌∷◌, ◌++◌, ◌==◌, if◌then◌else◌}
use yog_sothoth.Prelude.Map.{get_or}
use yog_sothoth.Domain.Protocols.{Result, ok, err}
use yog_sothoth.Api.Live.Watermark.{LiveWatermark, anchored, fresh, settle}

-- `POLL_BATCH_LIMIT`.
abbrev pub poll_batch_limit : ℕ
poll_batch_limit = 200

-- A source's answers at one tick. An error carries nothing that the poller reads.
pub record Source (A : Type 0) : Type 0 where
  pub tip : Result (Unit {0}) (Option ℕ)
  pub after : ℕ → ℕ → Result (Unit {0}) (List A)

-- `stopped`: the shutdown comes before the tick; `cut`: it comes while the tick reads.
pub record Tick (A : Type 0) : Type 0 where
  pub stopped : Bool
  pub receiver_count : ℕ
  pub cut : Bool
  pub source : Source A
  pub now : ℕ

module _ {A Item : Type 0} (id_of : A → ℕ) (prepare : List A → List Item) where
  -- What is broadcast of the records that are fresh.
  abbrev pub broadcast : List A → List Item
  broadcast [] = []
  broadcast (r ∷ rs) = prepare (r ∷ rs)

  -- The watermark that a tick begins with.
  abbrev pub anchor : Option LiveWatermark → Result (Unit {0}) (Option ℕ) → Option LiveWatermark
  anchor (some w) tip = some w
  anchor none (ok tip) = some (anchored (get_or 0 tip))
  anchor none (err e) = none

  -- What a read brings, with what it leaves of the watermark.
  unfoldable pub take_read :
      LiveWatermark → ℕ → Result (Unit {0}) (List A) → Option LiveWatermark × List Item
  take_read w now (err e) = (some w, [])
  take_read w now (ok records) =
      let (news, w') = fresh id_of records now w in (settle now w', broadcast news)

  unfoldable pub read_past : Source A → ℕ → Option LiveWatermark → Option LiveWatermark × List Item
  unfolding take_read
  read_past source now none = (none, [])
  read_past source now (some w) = take_read w now (source.after w.floor poll_batch_limit)

  unfoldable pub poll_once : Source A → ℕ → Option LiveWatermark → Option LiveWatermark × List Item
  unfolding read_past
  poll_once source now watermark = read_past source now (anchor watermark source.tip)

  -- Everything that the poller broadcasts over the ticks, from a watermark on.
  unfoldable pub run : List (Tick A) → Option LiveWatermark → List Item
  unfolding poll_once
  run [] watermark = []
  run (t ∷ ts) watermark =
      let idle = run ts none in
      let (watermark', items) = poll_once t.source t.now watermark in
      let polled = items ++ run ts watermark' in
      if t.stopped then [] else if t.receiver_count == 0 then idle else if t.cut then [] else polled
