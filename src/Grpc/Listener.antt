-- ===== src/Grpc/Listener.antt =====
-- crates/indexer/src/infra/grpc/listener.rs and listener/ending.rs: how one connection ended, what that
-- is worth, and the loop of attempts. What each attempt ends with comes from outside, as a list.
pub mod Budget
pub mod Clock
pub mod Reading
pub mod Streaks
pub mod Silence
use yog_sothoth.Prelude.{
  ℕ, ◌+◌, Bool, true, false, Option, none, some, List, [], ◌∷◌, if◌then◌else◌,
}
use Prim.Native.String.{String}
use yog_sothoth.Domain.Protocols.{Protocol, Result, ok, err}
use yog_sothoth.Grpc.Listener.Budget.{
  RetryBudget, Verdict, Next, retry, stop, GrpcListenerError, settle,
}
use yog_sothoth.Grpc.Listener.Budget

pub data Ending : Type 0 where
  shutdown_requested downstream_closed : Ending
  unreachable : String → Ending
  stream_closed : Bool → Ending
  failed stalled : String → Bool → Ending

unfoldable pub verdict : Ending → Verdict
verdict shutdown_requested = Verdict.shutdown_requested
verdict downstream_closed = Verdict.consumer_gone
verdict (unreachable e) = Verdict.unanswered e
verdict (stream_closed true) = Verdict.delivered none
verdict (stream_closed false) = Verdict.server_failed "stream closed without delivering anything"
verdict (failed e true) = Verdict.delivered (some e)
verdict (failed e false) = Verdict.server_failed e
verdict (stalled e true) = Verdict.delivered (some e)
verdict (stalled e false) = Verdict.unanswered e

-- One round of the loop: whether the token is cancelled at its head, and what the attempt that
-- follows ends with, or why there is no subscription to ask for.
pub record Round : Type 0 where
  pub is_cancelled : Bool
  pub attempted : Result GrpcListenerError Ending

-- Where the loop stands when the rounds are over: the waits it took, in seconds, and its result if it
-- returned.
pub record Outcome : Type 0 where
  pub waits : List ℕ
  pub result : Option (Result GrpcListenerError Unit)

abbrev pub returned : Result GrpcListenerError Unit → Outcome
returned r = record { waits = []; result = some r }

abbrev pub waited : ℕ → Outcome → Outcome
waited after o = record o { waits = after ∷ o.waits }

-- What follows `settle`.
abbrev pub proceed : (RetryBudget → Outcome) → RetryBudget × Next → Outcome
proceed rest (b, retry after) = waited after (rest b)
proceed rest (b, stop r) = returned r

-- An attempt that is made, and what it ends with.
abbrev pub attempt :
    (RetryBudget → Outcome) → RetryBudget → Result GrpcListenerError Ending → Outcome
attempt rest b (err e) = returned (err e)
attempt rest b (ok ending) = proceed rest (settle (verdict ending) b)

unfoldable pub attempts : List Round → RetryBudget → Outcome
attempts [] b = record { waits = []; result = none }
attempts (r ∷ rs) b =
    if r.is_cancelled then returned (ok tt) else attempt (attempts rs) b r.attempted
