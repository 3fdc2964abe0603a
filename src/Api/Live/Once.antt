-- ===== src/Api/Live/Once.antt =====
-- The poller of crates/api/src/application/live beside one that remembers every id it has passed.
use yog_sothoth.Prelude.{
  ℕ, suc, ◌+◌, ◌-◌, ◌<◌, ◌≡◌, refl, Bool, true, false, ◌||◌, not, Option, none, some, List, [], ◌∷◌,
  ltb, leb, ◌==◌, ==_iff, if◌then◌else◌, arith, Bool-cases, inl, inr, ◌∙◌, sym,
}
use yog_sothoth.Prelude.Map.{Map, SortedFrom, SortedFrom-insert, get, get-insert}
use yog_sothoth.Api.Live.Watermark.{LiveWatermark, gap_settle, fresh, deliver, kept}
use yog_sothoth.Api.Live.Settling.{IsValid, walk}

abbrev pub is_some : {A : Type 0} → Option A → Bool
is_some none = false
is_some (some a) = true

-- An id that the watermark has passed: it is below the floor, or delivered.
unfoldable pub covered : LiveWatermark → ℕ → Bool
covered w id = leb id w.floor || is_some (get id w.delivered)

-- The specification: a set of the ids seen.
abbrev pub Seen : Type 0
Seen = ℕ → Bool

abbrev pub Grows : Seen → Seen → Type 0
Grows seen seen' = (id : ℕ) → seen id ≡ true → seen' id ≡ true

-- What is passed over without being seen lies under an id that was seen.
abbrev pub PassesHoles : Seen → Seen → Type 0
PassesHoles seen seen' =
    (id : ℕ) → seen' id ≡ true → seen id ≡ false → (j : ℕ) × (id < j) × (seen j ≡ true)

module _ {A : Type 0} (id_of : A → ℕ) where
  -- The records not seen at their turn, and what has been seen after them.
  pub announce : List A → Seen → List A × Seen
  announce [] seen = ([], seen)
  announce (r ∷ rs) seen =
      let (rest, seen') = announce rs (λ id. id_of r == id || seen id) in
      (if seen (id_of r) then rest else r ∷ rest, seen')

  -- `announce` reads the set only by its values.
  announce_eq :
      (rs : List A) (seen seen' : Seen)
      → ((id : ℕ) → seen id ≡ seen' id)
      → ((announce rs seen).0 ≡ (announce rs seen').0)
        × ((id : ℕ) → (announce rs seen).1 id ≡ (announce rs seen').1 id)
  unfolding announce
  announce_eq [] seen seen' h = (refl, h)
  announce_eq (r ∷ rs) seen seen' h =
      let rec =
        announce_eq rs (λ id. id_of r == id || seen id) (λ id. id_of r == id || seen' id)
          (λ id. rw (h id)) in
      (rw (h (id_of r), rec.0), rec.1)

covered-deliver :
    (w : LiveWatermark) (id now j : ℕ) → covered (deliver id now w) j ≡ (id == j || covered w j)
unfolding covered
covered-deliver w id now j = rw get-insert (ground arith)

covered-eq :
    (w : LiveWatermark) (id j : ℕ) → covered w id ≡ true → (id == j || covered w j) ≡ covered w j
covered-eq w id j h = elim (Bool-cases (id == j)) [
  | inl e ↦ let same : id ≡ j = (==_iff _ _).0 e in rw e (rw same at (sym h))
  | inr e ↦ rw e
]

module _ {A : Type 0} (id_of : A → ℕ) where
  -- After a record, the rest is announced where what has been passed is what has been seen.
  announces_rest :
      (r : A) (rs : List A) (out : List A × LiveWatermark) (w w' : LiveWatermark)
      → (out.0 ≡ (announce id_of rs (covered w')).0)
        × ((id : ℕ) → covered out.1 id ≡ (announce id_of rs (covered w')).1 id)
      → ((id : ℕ) → covered w' id ≡ (id_of r == id || covered w id))
      → (out.0 ≡ (announce id_of rs (λ id. id_of r == id || covered w id)).0)
        × ((id : ℕ)
            → covered out.1 id ≡ (announce id_of rs (λ id. id_of r == id || covered w id)).1 id)
  announces_rest r rs out w w' rest h =
      let same = announce_eq id_of rs (covered w') (λ id. id_of r == id || covered w id) h in
      (rest.0 ∙ same.0, λ id. rest.1 id ∙ same.1 id)

  announces_kept :
      (r : A) (w : LiveWatermark) (rest : List A)
      → ltb w.floor (id_of r) ≡ true
      → kept r (get (id_of r) w.delivered) rest ≡ (if covered w (id_of r) then rest else r ∷ rest)
  unfolding covered
  announces_kept r w rest h =
      elim (get (id_of r) w.delivered)
        as (λ o. kept r o rest ≡ (if leb (id_of r) w.floor || is_some o then rest else r ∷ rest)) [
          | none ↦ ground arith
          | some a ↦ ground arith
        ]

  covered-below :
      (r : A) (w : LiveWatermark) → ltb w.floor (id_of r) ≡ false → covered w (id_of r) ≡ true
  unfolding covered
  covered-below r w h = ground arith

  -- `fresh` announces the records that the watermark has not passed.
  pub fresh-announces :
      (rs : List A) (now : ℕ) (w : LiveWatermark)
      → ((fresh id_of rs now w).0 ≡ (announce id_of rs (covered w)).0)
        × ((id : ℕ) → covered (fresh id_of rs now w).1 id ≡ (announce id_of rs (covered w)).1 id)
  unfolding fresh announce
  fresh-announces [] now w = (refl, λ id. refl)
  fresh-announces (r ∷ rs) now w = elim (Bool-cases (ltb w.floor (id_of r))) [
    | inl above ↦
        let w' : LiveWatermark = deliver (id_of r) now w in
        let rest =
          announces_rest r rs (fresh id_of rs now w') w w' (fresh-announces rs now w')
            (covered-deliver w (id_of r) now) in
        rw above (rw (announces_kept r w _ above, rest.0), rest.1)
    | inr below ↦
        let passed = covered-below r w below in
        let rest =
          announces_rest r rs (fresh id_of rs now w) w w (fresh-announces rs now w)
            (λ id. sym (covered-eq w (id_of r) id passed)) in
        rw (below, passed) rest
  ]

  pub fresh-IsValid :
      (rs : List A) (now : ℕ) (w : LiveWatermark) → IsValid w → IsValid (fresh id_of rs now w).1
  unfolding fresh
  fresh-IsValid [] now w v = v
  fresh-IsValid (r ∷ rs) now w v = elim (Bool-cases (ltb w.floor (id_of r))) [
    | inl above ↦ rw above (
        fresh-IsValid rs now (deliver (id_of r) now w)
          (SortedFrom-insert (suc w.floor) (id_of r) now w.delivered (ground arith) v))
    | inr below ↦ rw below (fresh-IsValid rs now w v)
  ]

-- `settle` forgets nothing.
pub walk-Grows :
    (now floor : ℕ) (m : Map ℕ)
    → SortedFrom (suc floor) m
    → Grows (covered (record { floor = floor; delivered = m })) (covered (walk now floor m))
unfolding covered walk get
walk-Grows now floor [] s id h = h
walk-Grows now floor ((k, read_at) ∷ m) s id h =
    elim (Bool-cases (k == floor + 1 || not (ltb (now - read_at) gap_settle))) [
      | inl passes ↦ rw passes (walk-Grows now k m s.1 id (ground arith))
      | inr stays ↦ rw stays h
    ]

pub walk-IsValid :
    (now floor : ℕ) (m : Map ℕ) → SortedFrom (suc floor) m → IsValid (walk now floor m)
unfolding walk
walk-IsValid now floor [] s = tt
walk-IsValid now floor ((k, read_at) ∷ m) s =
    elim (Bool-cases (k == floor + 1 || not (ltb (now - read_at) gap_settle))) [
      | inl passes ↦ rw passes (walk-IsValid now k m s.1)
      | inr stays ↦ rw stays s
    ]

covered-first :
    (floor k read_at : ℕ) (m : Map ℕ)
    → covered (record { floor = floor; delivered = (k, read_at) ∷ m }) k ≡ true
unfolding covered get
covered-first floor k read_at m = ground arith

covered-tail :
    (floor k read_at j : ℕ) (m : Map ℕ)
    → k < j
    → covered (record { floor = k; delivered = m }) j ≡ true
    → covered (record { floor = floor; delivered = (k, read_at) ∷ m }) j ≡ true
unfolding covered get
covered-tail floor k read_at j m lt h = ground arith

covered-other :
    (floor k read_at id : ℕ) (m : Map ℕ)
    → covered (record { floor = floor; delivered = (k, read_at) ∷ m }) id ≡ false
    → k < id
    → covered (record { floor = k; delivered = m }) id ≡ false
unfolding covered get
covered-other floor k read_at id m h lt = ground arith

pub walk-PassesHoles :
    (now floor : ℕ) (m : Map ℕ)
    → PassesHoles (covered (record { floor = floor; delivered = m })) (covered (walk now floor m))
unfolding walk
walk-PassesHoles now floor [] id h unseen = absurd (cc)
walk-PassesHoles now floor ((k, read_at) ∷ m) id h unseen =
    elim (Bool-cases (k == floor + 1 || not (ltb (now - read_at) gap_settle))) [
      | inl passes ↦ elim (Bool-cases (ltb k id)) [
        | inl past ↦
            let lt : k < id = ground arith in
            let (j, above, seen) =
              walk-PassesHoles now k m id (rw passes at h)
                (covered-other floor k read_at id m unseen lt) in
            (j, above, covered-tail floor k read_at j m (omega arith) seen)
        | inr under ↦ elim (Bool-cases (k == id)) [
          | inl same ↦
              let e : k ≡ id = (==_iff _ _).0 same in
              let there : covered (record { floor = floor; delivered = (k, read_at) ∷ m }) id
                  ≡ true =
                rw (← e) (covered-first floor k read_at m) in
              absurd (cc)
          | inr differ ↦ (k, ground arith, covered-first floor k read_at m)
        ]
      ]
      | inr stays ↦ let still = rw stays at h in absurd (cc)
    ]
