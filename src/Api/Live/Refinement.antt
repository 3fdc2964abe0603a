-- ===== src/Api/Live/Refinement.antt =====
-- The poller of crates/api/src/application/live and its contract, tick after tick.
use yog_sothoth.Prelude.{
  ℕ, ◌≤◌, ◌≡◌, refl, Bool, true, false, Option, none, some, List, [], ◌∷◌, ◌++◌, leb, ◌==◌,
  if◌then◌else◌, arith, ◌∙◌, sym, ap,
}
use mathlib.Core.Path.{fun_ext}
use yog_sothoth.Prelude.Map.{get_or, get}
use yog_sothoth.Domain.Protocols.{Result, ok, err}
use yog_sothoth.Api.Live.Watermark.{LiveWatermark, anchored, fresh}
use yog_sothoth.Api.Live.Settling.{IsValid, walk, settle-eq-walk}
use yog_sothoth.Api.Live.Poller.{
  Source, Tick, poll_batch_limit, anchor, broadcast, take_read, read_past, poll_once, run,
}
use yog_sothoth.Api.Live.Once.{
  Seen, Grows, PassesHoles, walk-PassesHoles, covered, announce, fresh-announces, fresh-IsValid,
  walk-Grows, walk-IsValid,
}

-- What has been seen at the start of a tick.
abbrev pub anchor_seen : Option Seen → Result (Unit {0}) (Option ℕ) → Option Seen
anchor_seen (some seen) tip = some seen
anchor_seen none (ok tip) = some (λ id. leb id (get_or 0 tip))
anchor_seen none (err e) = none

abbrev pub seen_by : Option LiveWatermark → Option Seen
seen_by none = none
seen_by (some w) = some (covered w)

abbrev pub AreValid : Option LiveWatermark → Type 0
AreValid none = Unit
AreValid (some w) = IsValid w

-- What a tick allows: nothing where the shutdown ends the run, and else what it does where nobody
-- listens, or where it reads.
abbrev pub AtTick :
    {Item : Type 0}
    → Bool
    → Bool
    → Bool
    → (List Item → Type 0)
    → (List Item → Type 0)
    → List Item
    → Type 0
AtTick true idle cut Idle Polled out = out ≡ []
AtTick false true cut Idle Polled out = Idle out
AtTick false false true Idle Polled out = out ≡ []
AtTick false false false Idle Polled out = Polled out

at_tick :
    {Item : Type 0} (stopped idle cut : Bool) (Idle Polled : List Item → Type 0)
    (unheard polled : List Item)
    → Idle unheard
    → Polled polled
    → AtTick stopped idle cut Idle Polled
        (if stopped then [] else if idle then unheard else if cut then [] else polled)
at_tick true idle cut Idle Polled unheard polled i p = refl
at_tick false true cut Idle Polled unheard polled i p = i
at_tick false false true Idle Polled unheard polled i p = refl
at_tick false false false Idle Polled unheard polled i p = p

passes_holes :
    (w : LiveWatermark) (now : ℕ) (seen : Seen)
    → ((id : ℕ) → covered w id ≡ seen id)
    → PassesHoles seen (covered (walk now w.floor w.delivered))
passes_holes w now seen same id h unseen =
    let (j, above, there) = walk-PassesHoles now w.floor w.delivered id h (same id ∙ unseen) in
    (j, above, sym (same j) ∙ there)

module _ {A Item : Type 0} (id_of : A → ℕ) (prepare : List A → List Item) where
  -- What a read may bring: its records that were not seen, once each, and then the rest; no id that
  -- was seen, or is in the read, is forgotten, and only holes are passed.
  abbrev pub Answers :
      (Option Seen → List Item → Type 0) → Seen → Result (Unit {0}) (List A) → List Item → Type 0
  Answers Later seen (err e) out = Later (some seen) out
  Answers Later seen (ok records) out =
      (seen' : Seen) × (rest : List Item) × (out
        ≡ broadcast id_of prepare (announce id_of records seen).0 ++ rest)
      × Grows (announce id_of records seen).1 seen'
      × PassesHoles (announce id_of records seen).1 seen'
      × Later (some seen') rest

  -- A read starts where everything has been seen.
  abbrev pub Reads :
      (Option Seen → List Item → Type 0) → Option Seen → Source A → List Item → Type 0
  Reads Later none source out = Later none out
  Reads Later (some seen) source out =
      (floor : ℕ) × ((id : ℕ) → id ≤ floor → seen id ≡ true)
      × Answers Later seen (source.after floor poll_batch_limit) out

  -- What a poller that remembers the ids seen may broadcast over the ticks.
  abbrev pub Refines : List (Tick A) → Option Seen → List Item → Type 0
  Refines [] seen out = out ≡ []
  Refines (t ∷ ts) seen out =
      AtTick t.stopped (t.receiver_count == 0) t.cut (Refines ts none)
        (Reads (Refines ts) (anchor_seen seen t.source.tip) t.source) out

  covered_below : (w : LiveWatermark) (id : ℕ) → id ≤ w.floor → covered w id ≡ true
  unfolding covered
  covered_below w id h = ground arith

  anchor-AreValid :
      (w : Option LiveWatermark) (tip : Result (Unit {0}) (Option ℕ))
      → AreValid w
      → AreValid (anchor id_of prepare w tip)
  unfolding anchored
  anchor-AreValid none (ok tip) v = tt
  anchor-AreValid none (err e) v = tt
  anchor-AreValid (some w) tip v = v

  take_read-Answers :
      (Later : Option Seen → List Item → Type 0) (go : Option LiveWatermark → List Item)
      (w : LiveWatermark) (now : ℕ) (read : Result (Unit {0}) (List A))
      → ((w' : Option LiveWatermark) → AreValid w' → Later (seen_by w') (go w'))
      → IsValid w
      → Answers Later
          (covered w)
          read
          ((take_read id_of prepare w now read).1 ++ go (take_read id_of prepare w now read).0)
  unfolding take_read
  take_read-Answers Later go w now (err e) later v = later (some w) v
  take_read-Answers Later go w now (ok records) later v =
      let news = fresh-announces id_of records now w in
      let w' : LiveWatermark = (fresh id_of records now w).1 in
      let valid = fresh-IsValid id_of records now w v in
      let left : LiveWatermark = walk now w'.floor w'.delivered in
      rw (settle-eq-walk now w' valid) (
        covered left,
        go (some left),
        ap (λ l. broadcast id_of prepare l ++ go (some left)) news.0,
        (λ id h. walk-Grows now w'.floor w'.delivered valid id (news.1 id ∙ h)),
        passes_holes (fresh id_of records now w).1 now (announce id_of records (covered w)).1
            news.1,
        later (some left) (walk-IsValid now w'.floor w'.delivered valid),
      )

  read_past-Reads :
      (Later : Option Seen → List Item → Type 0) (go : Option LiveWatermark → List Item)
      (w : Option LiveWatermark) (now : ℕ) (source : Source A)
      → ((w' : Option LiveWatermark) → AreValid w' → Later (seen_by w') (go w'))
      → AreValid w
      → Reads Later
          (seen_by w)
          source
          ((read_past id_of prepare source now w).1 ++ go (read_past id_of prepare source now w).0)
  unfolding read_past
  read_past-Reads Later go none now source later v = later none tt
  read_past-Reads Later go (some w) now source later v = (
    w.floor,
    covered_below w,
    take_read-Answers Later go w now (source.after w.floor poll_batch_limit) later v,
  )

  anchor-seen_by :
      (w : Option LiveWatermark) (tip : Result (Unit {0}) (Option ℕ))
      → seen_by (anchor id_of prepare w tip) ≡ anchor_seen (seen_by w) tip
  unfolding anchored covered get
  anchor-seen_by none (ok tip) = ap some (fun_ext (λ id. ground arith))
  anchor-seen_by none (err e) = refl
  anchor-seen_by (some w) tip = refl

  -- Whatever the ticks bring, what the poller broadcasts is what one may broadcast that remembers
  -- the ids it has seen, from its anchoring at the table's tip on and until nobody listens: at each
  -- tick it reads from a point below which everything was seen, hands on the records that were not
  -- seen, once each and in the order of the read, and forgets no id, while all that it passes over
  -- lies under an id that it has seen.
  pub run-Refines :
      (ts : List (Tick A)) (w : Option LiveWatermark)
      → AreValid w
      → Refines ts (seen_by w) (run id_of prepare ts w)
  unfolding run poll_once
  run-Refines [] w v = refl
  run-Refines (t ∷ ts) w v =
      at_tick t.stopped (t.receiver_count == 0) t.cut (Refines ts none) _
        (run id_of prepare ts none) _ (run-Refines ts none tt)
        (rw (← anchor-seen_by w t.source.tip) (
          read_past-Reads (Refines ts) (run id_of prepare ts) (anchor id_of prepare w t.source.tip)
            t.now t.source (run-Refines ts) (anchor-AreValid w t.source.tip v)))
