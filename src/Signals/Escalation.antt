-- ===== src/Signals/Escalation.antt =====
-- The signals that crates/signals/src/application/workers/signal_engine.rs stores for one pool.
use yog_sothoth.Prelude.{
  ℕ, ◌+◌, ◌-◌, ◌≤◌, ◌<◌, ◌≡◌, ◌≢◌, ◌∙◌, refl, sym, ap, subst, Bool, Bool-cases, inl, inr, true,
  false, Option, none, some, List, [], ◌∷◌, ◌++◌, retain, All, All-weaken, All-append, All-retain,
  All-retain_sub, ltb, ◌==◌, ◌&&◌, if◌then◌else◌, arith,
}
use yog_sothoth.Signals.Engine.{
  Severity, rank, Signal, escalates, emittable, persist, dedup, run_tick, TickOutcome,
}

same_pool : (a b : ℕ) (t : Bool) → ((a == b) && t) ≡ true → a ≡ b
same_pool a b t e = ground arith

not_both : (a b since at : ℕ) → ((a == b) && ltb since at) ≡ false → a ≡ b → since < at → ⊥
not_both a b since at e p w = ground arith

higher :
    (c y : Severity) (o : Option Severity)
    → escalates c o ≡ true
    → (s : Severity) × (o ≡ some s) × (rank y ≤ rank s)
    → rank y < rank c
higher c y o h (s, e, le) = let passed = rw e at h in ground (arith, passed)

module _ {Rest : Type 0} where
  -- The contract of the lookup in crates/core/src/domain/signals/repository.rs: the latest severity of
  -- the pool since an instant.
  abbrev pub latest : ℕ → ℕ → List (Signal Rest) → Option Severity
  latest pool since [] = none
  latest pool since (x ∷ xs) =
      let older = latest pool since xs in
      if (x.pool_address == pool) && ltb since x.triggered_at then some x.severity else older

  -- Of two signals of one pool, the newer less than the cooldown after the older is the more severe.
  abbrev pub Above : ℕ → Signal Rest → Signal Rest → Type 0
  Above cooldown x y =
      y.pool_address ≡ x.pool_address
      → x.triggered_at < y.triggered_at + cooldown
      → rank y.severity < rank x.severity

  abbrev pub Escalates : ℕ → List (Signal Rest) → Type 0
  Escalates cooldown [] = Unit
  Escalates cooldown (x ∷ xs) = All (Above cooldown x) xs × Escalates cooldown xs

  abbrev pub NoneAfter : ℕ → List (Signal Rest) → Type 0
  NoneAfter now = All (λ x. x.triggered_at ≤ now)

  -- What the lookup finds is at least as severe as the signal.
  abbrev Found : ℕ → ℕ → Option Severity → Signal Rest → Type 0
  Found pool since o y =
      y.pool_address ≡ pool
      → since < y.triggered_at
      → (s : Severity) × (o ≡ some s) × (rank y.severity ≤ rank s)

  below :
      (x z : Signal Rest) (pool since cooldown : ℕ)
      → Above cooldown x z
      → z.pool_address ≡ pool
      → x.pool_address ≡ pool
      → x.triggered_at ≤ since + cooldown
      → since < z.triggered_at
      → rank z.severity ≤ rank x.severity
  below x z pool since cooldown a p q t w =
      let lt = a (p ∙ sym q) (omega arith) in omega (arith, lt)

  latest-Found :
      (pool since cooldown : ℕ) (xs : List (Signal Rest))
      → Escalates cooldown xs
      → NoneAfter (since + cooldown) xs
      → All (Found pool since (latest pool since xs)) xs
  latest-Found pool since cooldown [] e n = tt
  latest-Found pool since cooldown (x ∷ xs) e n =
      elim (Bool-cases ((x.pool_address == pool) && ltb since x.triggered_at)) [
        | inl y ↦
            let hit : latest pool since (x ∷ xs) ≡ some x.severity = rw y refl in
            (
              (λ _ _. (x.severity, hit, omega arith)),
              All-weaken _ _
                  (λ z a p w. (
                    x.severity,
                    hit,
                    below x z pool since cooldown a p (same_pool _ pool _ y) n.0 w,
                  ))
                  xs e.0,
            )
        | inr q ↦
            let miss : latest pool since (x ∷ xs) ≡ latest pool since xs = rw q refl in
            (
              (λ p w. absurd (not_both _ pool since _ q p w)),
              subst (λ o. All (Found pool since o) xs) (sym miss)
                  (latest-Found pool since cooldown xs e.1 n.1),
            )
      ]

  -- What the filter lets through is above every signal of its pool within the cooldown.
  emitted-Above :
      (cooldown now : ℕ) (xs : List (Signal Rest)) (c : Signal Rest)
      → cooldown ≤ now
      → Escalates cooldown xs
      → NoneAfter now xs
      → c.triggered_at ≡ now
      → escalates c.severity (latest c.pool_address (now - cooldown) xs) ≡ true
      → All (Above cooldown c) xs
  emitted-Above cooldown now xs c le e n t h =
      let back : now - cooldown + cooldown ≡ now = omega arith in
      let found = latest-Found c.pool_address (now - cooldown) cooldown xs e (rw back n) in
      All-weaken _ _ (λ y f p w. higher c.severity y.severity _ h (f p (omega arith))) xs found

  -- The candidates of one tick: all of its instant, and no two of one pool.
  abbrev pub Batch : ℕ → List (Signal Rest) → Type 0
  Batch now [] = Unit
  Batch now (c ∷ cs) =
      (c.triggered_at ≡ now) × All (λ d. d.pool_address ≢ c.pool_address) cs × Batch now cs

  Batch-retain :
      (now : ℕ) (keep : Signal Rest → Bool) (cs : List (Signal Rest))
      → Batch now cs
      → Batch now (retain keep cs)
  Batch-retain now keep [] b = tt
  Batch-retain now keep (c ∷ cs) (t, apart, b) = elim (Bool-cases (keep c)) [
    | inl y ↦ rw y (t, All-retain_sub _ keep cs apart, Batch-retain now keep cs b)
    | inr n ↦ rw n (Batch-retain now keep cs b)
  ]

  append-Escalates :
      (cooldown now : ℕ) (cs xs : List (Signal Rest))
      → cooldown ≤ now
      → Escalates cooldown xs
      → NoneAfter now xs
      → Batch now cs
      → All (λ c. escalates c.severity (latest c.pool_address (now - cooldown) xs) ≡ true) cs
      → Escalates cooldown (cs ++ xs) × NoneAfter now (cs ++ xs)
  append-Escalates cooldown now [] xs le e n b h = (e, n)
  append-Escalates cooldown now (c ∷ cs) xs le e n (t, apart, b) (h, hs) =
      let (e', n') = append-Escalates cooldown now cs xs le e n b hs in
      (
        (
          All-append (Above cooldown c) cs xs
              (All-weaken _ (Above cooldown c) (λ d ne same w. absurd (ne same)) cs apart)
              (emitted-Above cooldown now xs c le e n t h),
          e',
        ),
        (omega arith, n'),
      )

  -- What the lookup may answer: an error, or the latest severities.
  abbrev pub Answers : ℕ → List (Signal Rest) → Option (ℕ → Option Severity) → Type 0
  Answers since store none = Unit
  Answers since store (some recent) = (pool : ℕ) → recent pool ≡ latest pool since store

  abbrev pub BatchOf : ℕ → Option (List (Signal Rest)) → Type 0
  BatchOf now none = Unit
  BatchOf now (some cs) = Batch now cs

  abbrev Kept : ℕ → ℕ → List (Signal Rest) × TickOutcome → Type 0
  Kept cooldown now r = Escalates cooldown r.0 × NoneAfter now r.0

  persist-Kept :
      (cooldown now : ℕ) (is_stored : Bool) (es store : List (Signal Rest))
      → Escalates cooldown store × NoneAfter now store
      → Escalates cooldown (es ++ store) × NoneAfter now (es ++ store)
      → Kept cooldown now (persist is_stored es store)
  persist-Kept cooldown now is_stored [] store k l = k
  persist-Kept cooldown now true (e ∷ es) store k l = l
  persist-Kept cooldown now false (e ∷ es) store k l = k

  dedup-Kept :
      (cooldown now : ℕ) (is_stored : Bool) (answer : Option (ℕ → Option Severity))
      (cs store : List (Signal Rest))
      → cooldown ≤ now
      → Escalates cooldown store
      → NoneAfter now store
      → Batch now cs
      → Answers (now - cooldown) store answer
      → Kept cooldown now (dedup is_stored answer cs store)
  unfolding emittable
  dedup-Kept cooldown now is_stored answer [] store le e n b a = (e, n)
  dedup-Kept cooldown now is_stored none (c ∷ cs) store le e n b a = (e, n)
  dedup-Kept cooldown now is_stored (some recent) (c ∷ cs) store le e n b a =
      let keep = λ (x : Signal Rest). escalates x.severity (recent x.pool_address) in
      let es = emittable (c ∷ cs) recent in
      persist-Kept cooldown now is_stored es store (e, n)
        (append-Escalates cooldown now es store le e n (Batch-retain now keep (c ∷ cs) b)
          (All-retain _ _ (c ∷ cs) (λ x p. ap (escalates x.severity) (sym (a x.pool_address)) ∙ p)))

  -- Where the cooldown is at most the instant, the lookup fails or answers the latest severities
  -- since the start of the window, the candidates are of this instant and of different pools, and
  -- the signals stored escalate and are none after the instant, a tick keeps both: of two stored
  -- signals of one pool, the newer within the cooldown of the older is the more severe, and none is
  -- after the tick.
  pub run_tick-Escalates :
      (cooldown now : ℕ) (evaluated : Option (List (Signal Rest)))
      (lookup : ℕ → Option (ℕ → Option Severity)) (is_stored : Bool) (store : List (Signal Rest))
      → cooldown ≤ now
      → Escalates cooldown store
      → NoneAfter now store
      → BatchOf now evaluated
      → Answers (now - cooldown) store (lookup (now - cooldown))
      → let r = run_tick now cooldown evaluated lookup is_stored store in
        Escalates cooldown r.0 × NoneAfter now r.0
  unfolding run_tick
  run_tick-Escalates cooldown now none lookup is_stored store le e n b a = (e, n)
  run_tick-Escalates cooldown now (some cs) lookup is_stored store le e n b a =
      dedup-Kept cooldown now is_stored (lookup (now - cooldown)) cs store le e n b a
