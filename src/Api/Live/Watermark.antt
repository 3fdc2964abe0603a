-- ===== src/Api/Live/Watermark.antt =====
-- crates/api/src/application/live/watermark.rs: where a poller stands in its table.
--
-- An id comes from a database sequence and is a number. An instant is a number of nanoseconds.
use yog_sothoth.Prelude.{
  ℕ, zero, suc, ◌+◌, ◌-◌, true, false, Option, none, some, List, [], ◌∷◌, ltb, ◌==◌, length,
  if◌then◌else◌,
}
use yog_sothoth.Prelude.Map.{Map, get, insert}

-- `GAP_SETTLE`: ten seconds.
abbrev pub gap_settle : ℕ
gap_settle = 10000000000

pub record LiveWatermark : Type 0 where
  pub floor : ℕ
  pub delivered : Map ℕ

unfoldable pub anchored : ℕ → LiveWatermark
anchored tip = record { floor = tip; delivered = [] }

-- `delivered.insert(id, now)`: the entry is written whether or not there was one.
abbrev pub deliver : ℕ → ℕ → LiveWatermark → LiveWatermark
deliver id now w = record w { delivered = insert id now w.delivered }

-- What the filter's test is of one record: above the floor, and new in the map.
abbrev pub kept : {A : Type 0} → A → Option ℕ → List A → List A
kept record' none rest = record' ∷ rest
kept record' (some _) rest = rest

module _ {A : Type 0} (id_of : A → ℕ) where
  -- `fresh`, with what it leaves of the watermark.
  unfoldable pub fresh : List A → ℕ → LiveWatermark → List A × LiveWatermark
  fresh [] now w = ([], w)
  fresh (r ∷ rs) now w =
      let news = ltb w.floor (id_of r) in
      let (rest, w') = fresh rs now (if news then deliver (id_of r) now w else w) in
      (if news then kept r (get (id_of r) w.delivered) rest else rest, w')

-- The inner loop of `settle`: the ids without a hole.
unfoldable pub advance : ℕ → Map ℕ → LiveWatermark
advance floor [] = record { floor = floor; delivered = [] }
advance floor ((id, read_at) ∷ m) =
    if id == floor + 1
    then advance (floor + 1) m
    else record { floor = floor; delivered = (id, read_at) ∷ m }

-- What a round of the outer loop does after the inner one, by the first id delivered; `again` is
-- the next round, from the floor that it is given.
unfoldable pub round :
    (LiveWatermark → Option LiveWatermark) → ℕ → LiveWatermark → Map ℕ → Option LiveWatermark
round again now w [] = some w
round again now w ((next, read_at) ∷ m) = elim (ltb (now - read_at) gap_settle) [
  | true ↦ some w
  | false ↦ again (record w { floor = next - 1 })
]

-- The outer loop of `settle` with fuel; `none` means that the fuel ran out.
unfoldable pub settle_loop : ℕ → ℕ → LiveWatermark → Option LiveWatermark
unfolding advance round
settle_loop zero now w = none
settle_loop (suc fuel) now w =
    let w' = advance w.floor w.delivered in
    round (λ w''. settle_loop fuel now w'') now w' w'.delivered

-- Where each round but the first takes out an id, as many rounds as there are ids and one more do.
unfoldable pub settle : ℕ → LiveWatermark → Option LiveWatermark
unfolding settle_loop
settle now w = settle_loop (suc (length w.delivered)) now w
