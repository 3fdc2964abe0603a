-- ===== src/Rpc/Listener.antt =====
-- crates/indexer/src/infra/rpc/listener.rs: the run of a fleet, from its checks to how it ends. What the
-- credential and the endpoint are checked to be, what awaiting each worker gives, and whether a stop was
-- requested by the time that all have ended come from outside; the events in between are only logged.
use yog_sothoth.Prelude.{
  ℕ, ◌≡◌, ◌∙◌, refl, subst, suc, ap, Bool, true, false, ◌&&◌, not, List, [], ◌∷◌, length, ltb,
  arith,
}
use Prim.Native.String.{String}
use yog_sothoth.Domain.Protocols.{Result, ok, err}
use yog_sothoth.Rpc.Fleet.{
  SubscriptionTarget, TaskResult, WorkerHandle, WorkerFailure, AllWorkersGaveUp, join_fleet,
  fleet_outcome, has_failed, all_failed, has_ended_badly, fleet_outcome-join_fleet,
}

-- crates/indexer/src/error/rpc_listener_error.rs; a credential's own error is a parameter.
pub data RpcListenerError (E : Type 0) : Type 0 where
  credential : E → RpcListenerError E
  no_subscription_targets : RpcListenerError E
  invalid_endpoint : String → RpcListenerError E
  all_workers_gave_up : AllWorkersGaveUp → RpcListenerError E

-- The workers spawned, one for each target, with what awaiting them gives.
abbrev pub spawn_workers :
    (SubscriptionTarget → TaskResult) → List SubscriptionTarget → List WorkerHandle
spawn_workers await [] = []
spawn_workers await (t ∷ ts) = record { target = t; handle = await t } ∷ spawn_workers await ts

abbrev pub gave_up : {E : Type 0} → Result AllWorkersGaveUp Unit → Result (RpcListenerError E) Unit
gave_up (ok u) = ok u
gave_up (err e) = err (all_workers_gave_up e)

module _ {E : Type 0} (exhausted : ℕ → String → String) (panic : String → String)
    (joined : List WorkerFailure → String) where
  -- The end, once every worker has been awaited.
  unfoldable pub after_join : Bool → List WorkerFailure → ℕ → Result (RpcListenerError E) Unit
  after_join true failures total = ok tt
  after_join false failures total = gave_up (fleet_outcome exhausted panic joined failures total)

  unfoldable pub build_subscription_targets :
      List SubscriptionTarget → Result (RpcListenerError E) (List SubscriptionTarget)
  build_subscription_targets [] = err no_subscription_targets
  build_subscription_targets (t ∷ ts) = ok (t ∷ ts)

  -- From the targets on.
  unfoldable pub supervise :
      (SubscriptionTarget → TaskResult)
      → Bool
      → Result (RpcListenerError E) (List SubscriptionTarget)
      → Result (RpcListenerError E) Unit
  unfolding after_join
  supervise await is_cancelled (err e) = err e
  supervise await is_cancelled (ok targets) =
      after_join is_cancelled (join_fleet exhausted panic joined (spawn_workers await targets) [])
        (length targets)

  unfoldable pub run :
      Result E Unit
      → Result String Unit
      → List SubscriptionTarget
      → (SubscriptionTarget → TaskResult)
      → Bool
      → Result (RpcListenerError E) Unit
  unfolding supervise build_subscription_targets
  run (err e) scheme watched await is_cancelled = err (credential e)
  run (ok u) (err reason) watched await is_cancelled = err (invalid_endpoint reason)
  run (ok u) (ok v) watched await is_cancelled =
      supervise await is_cancelled (build_subscription_targets watched)

-- Every target's worker gave up or panicked.
abbrev pub all_fail : (SubscriptionTarget → TaskResult) → List SubscriptionTarget → Bool
all_fail await [] = true
all_fail await (t ∷ ts) = has_failed (await t) && all_fail await ts

abbrev pub is_error : {F : Type 0} → Result F Unit → Bool
is_error (ok u) = false
is_error (err e) = true

-- How a run ends: by the first check that fails, or else by its workers unless a stop was requested.
abbrev pub Ends :
    {E : Type 0}
    → Result E Unit
    → Result String Unit
    → List SubscriptionTarget
    → (SubscriptionTarget → TaskResult)
    → Bool
    → Result (RpcListenerError E) Unit
    → Type 0
Ends (err e) scheme watched await is_cancelled r = r ≡ err (credential e)
Ends (ok u) (err reason) watched await is_cancelled r = r ≡ err (invalid_endpoint reason)
Ends (ok u) (ok v) [] await is_cancelled r = r ≡ err no_subscription_targets
Ends (ok u) (ok v) (t ∷ ts) await is_cancelled r =
    is_error r ≡ (not is_cancelled && all_fail await (t ∷ ts))

gave_up-is_error :
    (E : Type 0) (r : Result AllWorkersGaveUp Unit)
    → is_error (gave_up {E = E} r) ≡ has_ended_badly r
gave_up-is_error E (ok u) = refl
gave_up-is_error E (err e) = refl

and_some : (b : Bool) (n : ℕ) → (b && ltb 0 (suc n)) ≡ b
and_some b n = ground arith

spawn-all_failed :
    (await : SubscriptionTarget → TaskResult) (ts : List SubscriptionTarget)
    → all_failed (spawn_workers await ts) ≡ all_fail await ts
spawn-all_failed await [] = refl
spawn-all_failed await (t ∷ ts) = ap (λ b. has_failed (await t) && b) (spawn-all_failed await ts)

length-spawn :
    (await : SubscriptionTarget → TaskResult) (ts : List SubscriptionTarget)
    → length (spawn_workers await ts) ≡ length ts
length-spawn await [] = refl
length-spawn await (t ∷ ts) = omega (arith, length-spawn await ts)

module _ {E : Type 0} (exhausted : ℕ → String → String) (panic : String → String)
    (joined : List WorkerFailure → String) where
  -- A run of the RPC listener ends in the error of the credential, or else of the endpoint, if
  -- that is refused, and in the error of no targets if there are none; with targets, it ends in
  -- an error exactly if no stop was requested by the time that its workers have ended and every
  -- one of them gave up or panicked.
  pub run-Ends :
      (checked : Result E Unit) (scheme : Result String Unit) (watched : List SubscriptionTarget)
      (await : SubscriptionTarget → TaskResult) (is_cancelled : Bool)
      → Ends checked scheme watched await is_cancelled
          (run exhausted panic joined checked scheme watched await is_cancelled)
  unfolding run supervise after_join build_subscription_targets
  run-Ends (err e) scheme watched await is_cancelled = refl
  run-Ends (ok u) (err reason) watched await is_cancelled = refl
  run-Ends (ok u) (ok v) [] await is_cancelled = refl
  run-Ends (ok u) (ok v) (t ∷ ts) await true = refl
  run-Ends (ok u) (ok v) (t ∷ ts) await false =
      let handles = spawn_workers await (t ∷ ts) in
      let failures = join_fleet exhausted panic joined handles [] in
      gave_up-is_error E (fleet_outcome exhausted panic joined failures (length (t ∷ ts)))
      ∙ subst
          (λ n.
            has_ended_badly (fleet_outcome exhausted panic joined failures n)
            ≡ all_fail await (t ∷ ts))
          (length-spawn await (t ∷ ts))
          (fleet_outcome-join_fleet exhausted panic joined handles
            ∙ and_some (all_failed handles) (length (spawn_workers await ts))
            ∙ spawn-all_failed await (t ∷ ts))
