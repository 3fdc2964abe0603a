-- ===== src/Rpc/Fleet.antt =====
-- crates/indexer/src/infra/rpc/listener.rs: how a fleet of workers ends. The text of a failure is a
-- parameter.
use yog_sothoth.Prelude.{
  ℕ, ◌+◌, ◌≤◌, ◌≡◌, refl, ◌∙◌, Bool, true, false, ◌&&◌, List, [], ◌∷◌, ◌++◌, arith, length,
  length-append, ltb, ◌==◌, if◌then◌else◌,
}
use Prim.Native.String.{String}
use yog_sothoth.Domain.Protocols.{Protocol, Result, ok, err}

pub record SubscriptionTarget : Type 0 where
  pub protocol : Protocol
  pub mention : ℕ

-- crates/indexer/src/error/subscription_worker_error.rs.
pub record RetriesExhausted : Type 0 where
  pub protocol : Protocol
  pub mention : ℕ
  pub attempts : ℕ
  pub last_error : String

-- What awaiting a worker's task gives.
pub data TaskResult : Type 0 where
  finished : Result RetriesExhausted Unit → TaskResult
  panicked : String → TaskResult
  cancelled : TaskResult

pub record WorkerHandle : Type 0 where
  pub target : SubscriptionTarget
  pub handle : TaskResult

pub record WorkerFailure : Type 0 where
  pub protocol : Protocol
  pub mention : ℕ
  pub reason : String

-- crates/indexer/src/error/rpc_listener_error.rs, the one that a fleet ends with.
pub record AllWorkersGaveUp : Type 0 where
  pub failures : String

module _ (exhausted : ℕ → String → String) (panic : String → String)
    (joined : List WorkerFailure → String) where
  abbrev failure_of : RetriesExhausted → WorkerFailure
  failure_of e = record {
    protocol = e.protocol;
    mention = e.mention;
    reason = exhausted e.attempts e.last_error;
  }

  unfoldable pub push_failure : List WorkerFailure → RetriesExhausted → List WorkerFailure
  push_failure gave_up e = gave_up ++ failure_of e ∷ []

  -- One worker of `join_fleet`.
  unfoldable pub join_one :
      SubscriptionTarget → TaskResult → List WorkerFailure → List WorkerFailure
  join_one target (finished (ok u)) gave_up = gave_up
  join_one target (finished (err e)) gave_up = push_failure gave_up e
  join_one target (panicked e) gave_up =
      gave_up
      ++ record { protocol = target.protocol; mention = target.mention; reason = panic e } ∷ []
  join_one target cancelled gave_up = gave_up

  unfoldable pub join_fleet : List WorkerHandle → List WorkerFailure → List WorkerFailure
  join_fleet [] gave_up = gave_up
  join_fleet (h ∷ hs) gave_up = join_fleet hs (join_one h.target h.handle gave_up)

  unfoldable pub fleet_outcome : List WorkerFailure → ℕ → Result AllWorkersGaveUp Unit
  fleet_outcome gave_up total =
      if (length gave_up == total) && ltb 0 total
      then err (record { failures = joined gave_up })
      else ok tt

-- A worker that gave up or panicked.
abbrev pub has_failed : TaskResult → Bool
has_failed (finished (ok u)) = false
has_failed (finished (err e)) = true
has_failed (panicked e) = true
has_failed cancelled = false

abbrev pub all_failed : List WorkerHandle → Bool
all_failed [] = true
all_failed (h ∷ hs) = has_failed h.handle && all_failed hs

abbrev pub has_ended_badly : Result AllWorkersGaveUp Unit → Bool
has_ended_badly (ok u) = false
has_ended_badly (err e) = true

has_ended_badly_if :
    (b : Bool) (e : AllWorkersGaveUp) → has_ended_badly (if b then err e else ok tt) ≡ b
has_ended_badly_if true e = refl
has_ended_badly_if false e = refl

abbrev count_failed : List WorkerHandle → ℕ
count_failed [] = 0
count_failed (h ∷ hs) = (if has_failed h.handle then 1 else 0) + count_failed hs

count_failed-le : (hs : List WorkerHandle) → count_failed hs ≤ length hs
count_failed-le [] = omega arith
count_failed-le (h ∷ hs) = ground (arith, count_failed-le hs)

count_failed-all : (hs : List WorkerHandle) → (count_failed hs == length hs) ≡ all_failed hs
count_failed-all [] = refl
count_failed-all (h ∷ hs) = ground (arith, count_failed-le hs, count_failed-all hs)

module _ (exhausted : ℕ → String → String) (panic : String → String)
    (joined : List WorkerFailure → String) where
  length-join_one :
      (target : SubscriptionTarget) (r : TaskResult) (gave_up : List WorkerFailure)
      → length (join_one exhausted panic joined target r gave_up)
        ≡ length gave_up + (if has_failed r then 1 else 0)
  unfolding join_one push_failure
  length-join_one target (finished (ok u)) gave_up = omega arith
  length-join_one target (finished (err e)) gave_up = length-append gave_up _
  length-join_one target (panicked e) gave_up = length-append gave_up _
  length-join_one target cancelled gave_up = omega arith

  length-join_fleet :
      (hs : List WorkerHandle) (gave_up : List WorkerFailure)
      → length (join_fleet exhausted panic joined hs gave_up) ≡ length gave_up + count_failed hs
  unfolding join_fleet
  length-join_fleet [] gave_up = omega arith
  length-join_fleet (h ∷ hs) gave_up = omega (
    arith,
    length-join_one h.target h.handle gave_up,
    length-join_fleet hs (join_one exhausted panic joined h.target h.handle gave_up),
  )

  -- The outcome of the workers joined is an error exactly if there was one and each of them gave up
  -- or panicked.
  pub fleet_outcome-join_fleet :
      (hs : List WorkerHandle)
      → has_ended_badly (
          fleet_outcome exhausted panic joined
            (join_fleet exhausted panic joined hs [])
            (length hs))
        ≡ (all_failed hs && ltb 0 (length hs))
  unfolding fleet_outcome
  fleet_outcome-join_fleet hs =
      let same : length (join_fleet exhausted panic joined hs []) ≡ count_failed hs =
        length-join_fleet hs [] ∙ omega arith in
      rw (same, count_failed-all hs) (has_ended_badly_if (all_failed hs && ltb 0 (length hs)) _)
