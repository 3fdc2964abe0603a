-- ===== src/Api/Live/Hole.antt =====
-- A hole that stays empty under crates/api/src/application/live/watermark.rs.
use yog_sothoth.Prelude.{
  ℕ, suc, ◌<◌, ◌≤◌, ◌≡◌, refl, Bool, true, false, ◌||◌, ◌&&◌, Option, none, some, List, [], ◌∷◌,
  ltb, ◌==◌, if◌then◌else◌, arith, Bool-cases, inl, inr, All, ◌∙◌, sym, ap, subst,
}
use yog_sothoth.Prelude.Map.{Map, insert}
use yog_sothoth.Api.Live.Watermark.{LiveWatermark, fresh, deliver, settle}
use yog_sothoth.Api.Live.Settling.{IsValid, walk, settle-eq-walk}
use yog_sothoth.Api.Live.Once.{fresh-IsValid}

-- The lowest id delivered, and when it was read.
abbrev pub head_entry : Map ℕ → Option (ℕ × ℕ)
head_entry [] = none
head_entry (e ∷ m) = some e

head_entry-insert :
    (id now next read_at : ℕ) (m : Map ℕ)
    → next ≤ id
    → head_entry m ≡ some (next, read_at)
    → head_entry (insert id now m) ≡ some (next, if id == next then now else read_at)
unfolding insert
head_entry-insert id now next read_at [] le h = cc
head_entry-insert id now next read_at ((k, r) ∷ m) le h = ground arith

module _ {A : Type 0} (id_of : A → ℕ) where
  abbrev pub holds : ℕ → List A → Bool
  holds id [] = false
  holds id (r ∷ rs) = id_of r == id || holds id rs

  fresh-floor :
      (rs : List A) (now : ℕ) (w : LiveWatermark) → (fresh id_of rs now w).1.floor ≡ w.floor
  unfolding fresh
  fresh-floor [] now w = refl
  fresh-floor (r ∷ rs) now w = elim (Bool-cases (ltb w.floor (id_of r))) [
    | inl e ↦ rw e (fresh-floor rs now (deliver (id_of r) now w))
    | inr e ↦ rw e (fresh-floor rs now w)
  ]

  -- No record lies in the hole under an id.
  abbrev pub StaysOpen : ℕ → ℕ → List A → Type 0
  StaysOpen floor next = All (λ r. (ltb floor (id_of r) && ltb (id_of r) next) ≡ false)

  fresh-head_entry :
      (rs : List A) (now next read_at : ℕ) (w : LiveWatermark)
      → w.floor < next
      → StaysOpen w.floor next rs
      → head_entry w.delivered ≡ some (next, read_at)
      → head_entry (fresh id_of rs now w).1.delivered
        ≡ some (next, if holds next rs then now else read_at)
  unfolding fresh
  fresh-head_entry [] now next read_at w lt stays h = h
  fresh-head_entry (r ∷ rs) now next read_at w lt stays h =
      elim (Bool-cases (ltb w.floor (id_of r))) [
        | inl above ↦
            let past : next ≤ id_of r = ground arith in
            let dated = head_entry-insert (id_of r) now next read_at w.delivered past h in
            rw above (
              fresh-head_entry rs now next (if id_of r == next then now else read_at)
                (deliver (id_of r) now w) lt stays.1 dated
              ∙ ap (λ t. some (next, t)) (ground arith))
        | inr below ↦
            let other : (id_of r == next) ≡ false = ground arith in
            rw (below, other) (fresh-head_entry rs now next read_at w lt stays.1 h)
      ]

walk_early :
    (now floor next : ℕ) (m : Map ℕ)
    → suc floor < next
    → head_entry m ≡ some (next, now)
    → walk now floor m ≡ record { floor = floor; delivered = m }
unfolding walk
walk_early now floor next [] hole h = cc
walk_early now floor next ((k, r) ∷ m) hole h = ground arith

infixl 5 ◌>>=◌
abbrev ◌>>=◌ : {A B : Type 0} → Option A → (A → Option B) → Option B
none >>= f = none
some a >>= f = f a

module _ {A : Type 0} (id_of : A → ℕ) where
  -- One tick after another: `fresh`, then `settle`.
  unfoldable pub polls : List (ℕ × List A) → LiveWatermark → Option LiveWatermark
  polls [] w = some w
  polls ((now, records) ∷ bs) w = do w' ← settle now (fresh id_of records now w).1; polls bs w'

  -- Each tick reads the id above the hole again, and none in the hole.
  abbrev pub Rereads : ℕ → ℕ → List (ℕ × List A) → Type 0
  Rereads floor next = All (λ b. (holds id_of next b.1 ≡ true) × StaysOpen id_of floor next b.1)

  -- While each tick reads the lowest id delivered again, and the hole under it stays empty, the
  -- floor stays where it is, however long ago that id was first read.
  pub polls_stay :
      (bs : List (ℕ × List A)) (w : LiveWatermark) (next read_at : ℕ)
      → IsValid w
      → suc w.floor < next
      → head_entry w.delivered ≡ some (next, read_at)
      → Rereads w.floor next bs
      → (w' : LiveWatermark) × (polls bs w ≡ some w') × (w'.floor ≡ w.floor)
  unfolding polls
  polls_stay [] w next read_at v hole h again = (w, refl, refl)
  polls_stay ((now, records) ∷ bs) w next read_at v hole h again =
      let w' : LiveWatermark = (fresh id_of records now w).1 in
      let same : w'.floor ≡ w.floor = fresh-floor id_of records now w in
      let valid : IsValid w' = fresh-IsValid id_of records now w v in
      let dated : head_entry w'.delivered ≡ some (next, now) =
        rw again.0.0 at
          (fresh-head_entry id_of records now next read_at w (omega arith) again.0.1 h) in
      let settled : settle now w' ≡ some w' =
        settle-eq-walk now w' valid
        ∙ ap some (walk_early now w'.floor next w'.delivered (omega arith) dated) in
      let rest =
        polls_stay bs w' next now valid (omega arith) dated
          (subst (λ f. Rereads f next bs) (sym same) again.1) in
      (rest.0, ap (λ o. o >>= polls bs) settled ∙ rest.1, rest.2 ∙ same)
