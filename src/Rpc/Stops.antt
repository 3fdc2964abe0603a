-- ===== src/Rpc/Stops.antt =====
-- How a worker of crates/indexer/src/infra/rpc/subscription_worker.rs stops, and what it says of it.
use yog_sothoth.Prelude.{
  ℕ, ◌+◌, ◌<◌, ◌≤◌, max, ◌≡◌, ◌∙◌, ◌⊎◌, refl, sym, ap, Bool, Bool-cases, inl, inr, true, false,
  Option, none, some, List, [], ◌∷◌, leb, arith, if◌then◌else◌,
}
use yog_sothoth.Domain.Protocols.{Result, ok, err}
use yog_sothoth.Rpc.Fleet.{SubscriptionTarget, RetriesExhausted}
use yog_sothoth.Rpc.Worker.{
  SubscriptionEvent, subscribed, giving_up, shutdown_completed, retry_failed, ConnectOutcome,
  shutdown_requested, dispatcher_closed, failed, Round, Outcome, rounds, settle, run,
}

abbrev pub is_final : SubscriptionEvent → Bool
is_final (subscribed p m) = false
is_final (SubscriptionEvent.stream_closed p m n) = false
is_final (retry_failed p m n e) = false
is_final (giving_up p m e) = true
is_final (shutdown_completed p m) = true

-- The last word for the result of a worker.
abbrev pub last_word :
    SubscriptionTarget → Option (Result RetriesExhausted Unit) → List SubscriptionEvent
last_word t none = []
last_word t (some (ok u)) = shutdown_completed t.protocol t.mention ∷ []
last_word t (some (err e)) = giving_up t.protocol t.mention e.last_error ∷ []

abbrev pub finals : List SubscriptionEvent → List SubscriptionEvent
finals [] = []
finals (e ∷ es) = if is_final e then e ∷ finals es else finals es

module _ (t : SubscriptionTarget) (max_attempts : ℕ) where
  -- The final events of an outcome are the last word for its result.
  abbrev Says : Outcome → Type 0
  Says o = finals o.events ≡ last_word t o.result

  settle-Says :
      (attempt backoff : ℕ) (c : ConnectOutcome) (rest : ℕ → ℕ → Outcome)
      → ((n k : ℕ) → Says (rest n k))
      → Says (settle t max_attempts attempt backoff c rest)
  unfolding settle
  settle-Says attempt backoff shutdown_requested rest h = refl
  settle-Says attempt backoff dispatcher_closed rest h = refl
  settle-Says attempt backoff ConnectOutcome.stream_closed rest h = h 0 1
  settle-Says attempt backoff (failed e) rest h = elim (Bool-cases (leb max_attempts attempt)) [
    | inl y ↦ rw y refl
    | inr n ↦ rw n (h attempt _)
  ]

  rounds-Says :
      (rs : List Round) (attempt backoff : ℕ) → Says (rounds t max_attempts rs attempt backoff)
  unfolding rounds
  rounds-Says [] attempt backoff = refl
  rounds-Says (r ∷ rs) attempt backoff =
      let settled =
        settle-Says (attempt + 1) backoff r.ended (rounds t max_attempts rs) (rounds-Says rs) in
      elim (Bool-cases r.is_cancelled) [
        | inl y ↦ rw y refl
        | inr n ↦ elim (Bool-cases r.has_subscribed) [
          | inl s ↦ rw (n, s) settled
          | inr q ↦ rw (n, q) settled
        ]
      ]

  -- A worker says that it stops exactly when it does, once, and as its result has it: that the
  -- shutdown is complete, or that it gives up, with its last error.
  pub run-finals :
      (rs : List Round)
      → finals (run t max_attempts rs).events ≡ last_word t (run t max_attempts rs).result
  unfolding run
  run-finals rs = rounds-Says rs 0 1

abbrev attempts_of : ℕ → Option (Result RetriesExhausted Unit) → ℕ
attempts_of n none = n
attempts_of n (some (ok u)) = n
attempts_of n (some (err e)) = e.attempts

module _ (t : SubscriptionTarget) (max_attempts : ℕ) where
  -- An outcome that gives up does so at the bound, or at the first failure where the bound is zero.
  abbrev GivesUpAt : Outcome → Type 0
  GivesUpAt o = (e : RetriesExhausted) → o.result ≡ some (err e) → e.attempts ≡ max 1 max_attempts

  -- What a loop has left of its budget.
  abbrev Room : ℕ → Type 0
  Room n = (n ≡ 0) ⊎ (n < max_attempts)

  at_bound : (n : ℕ) → Room n → max_attempts ≤ n + 1 → n + 1 ≡ max 1 max_attempts
  at_bound n w h = ground arith

  settle-GivesUpAt :
      (attempt backoff : ℕ) (c : ConnectOutcome) (rest : ℕ → ℕ → Outcome)
      → Room attempt
      → ((n k : ℕ) → Room n → GivesUpAt (rest n k))
      → GivesUpAt (settle t max_attempts (attempt + 1) backoff c rest)
  unfolding settle
  settle-GivesUpAt attempt backoff shutdown_requested rest w h e = λ eq. ground arith
  settle-GivesUpAt attempt backoff dispatcher_closed rest w h e = λ eq. ground arith
  settle-GivesUpAt attempt backoff ConnectOutcome.stream_closed rest w h e = h 0 1 (inl refl) e
  settle-GivesUpAt attempt backoff (failed x) rest w h e =
      elim (Bool-cases (leb max_attempts (attempt + 1))) [
        | inl y ↦ rw y (λ eq. sym (ap (attempts_of 0) eq) ∙ at_bound attempt w (ground arith))
        | inr n ↦ rw n (h (attempt + 1) _ (inr (ground arith)) e)
      ]

  rounds-GivesUpAt :
      (rs : List Round) (attempt backoff : ℕ)
      → Room attempt
      → GivesUpAt (rounds t max_attempts rs attempt backoff)
  unfolding rounds
  rounds-GivesUpAt [] attempt backoff w e = λ eq. ground arith
  rounds-GivesUpAt (r ∷ rs) attempt backoff w e =
      let settled =
        settle-GivesUpAt attempt backoff r.ended (rounds t max_attempts rs) w (rounds-GivesUpAt rs)
          e in
      elim (Bool-cases r.is_cancelled) [
        | inl y ↦ rw y (λ eq. ground arith)
        | inr n ↦ elim (Bool-cases r.has_subscribed) [
          | inl s ↦ rw (n, s) settled
          | inr q ↦ rw (n, q) settled
        ]
      ]

  -- The number of attempts that a worker gives up with is its bound, or one where that is zero,
  -- whatever came before.
  pub run-attempts :
      (rs : List Round) (e : RetriesExhausted)
      → (run t max_attempts rs).result ≡ some (err e)
      → e.attempts ≡ max 1 max_attempts
  unfolding run
  run-attempts rs = rounds-GivesUpAt rs 0 1 (inl refl)
