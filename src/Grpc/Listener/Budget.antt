-- ===== src/Grpc/Listener/Budget.antt =====
-- crates/indexer/src/infra/grpc/listener/retry_budget.rs: whether to try again, and how long to wait
-- first. Seconds are numbers; the counter and the backoff are bounded below, so neither wraps.
use yog_sothoth.Prelude.{ℕ, ◌+◌, ◌*◌, min, Option, leb, if◌then◌else◌}
use Prim.Native.String.{String}
use yog_sothoth.Domain.Protocols.{Result, ok, err}

abbrev pub initial_backoff_secs : ℕ
initial_backoff_secs = 1

abbrev pub max_backoff_secs : ℕ
max_backoff_secs = 60

-- crates/indexer/src/infra/grpc/listener/ending.rs.
pub data Verdict : Type 0 where
  shutdown_requested consumer_gone : Verdict
  delivered : Option String → Verdict
  server_failed unanswered : String → Verdict

-- crates/indexer/src/error/grpc_listener_error.rs: the two that the loop of attempts can return.
pub data GrpcListenerError : Type 0 where
  retries_exhausted : ℕ → String → GrpcListenerError
  no_subscription_targets : GrpcListenerError

pub data Next : Type 0 where
  retry : ℕ → Next
  stop : Result GrpcListenerError Unit → Next

pub record RetryBudget : Type 0 where
  pub attempt : ℕ
  pub backoff : ℕ
  pub max_attempts : ℕ

unfoldable pub new : ℕ → RetryBudget
new max_attempts = record {
  attempt = 0;
  backoff = initial_backoff_secs;
  max_attempts = max_attempts;
}

unfoldable pub churn : RetryBudget → RetryBudget × Next
churn b = (record b { attempt = 0; backoff = initial_backoff_secs }, retry initial_backoff_secs)

unfoldable pub charge : String → RetryBudget → RetryBudget × Next
charge last_error b =
    if leb b.max_attempts b.attempt
    then (b, stop (err (retries_exhausted b.attempt last_error)))
    else (record b { backoff = min (b.backoff * 2) max_backoff_secs }, retry b.backoff)

abbrev counted : RetryBudget → RetryBudget
counted b = record b { attempt = b.attempt + 1 }

unfoldable pub settle : Verdict → RetryBudget → RetryBudget × Next
unfolding churn charge
settle shutdown_requested b = (counted b, stop (ok tt))
settle consumer_gone b = (counted b, stop (ok tt))
settle (delivered e) b = churn (counted b)
settle (server_failed e) b = charge e (counted b)
settle (unanswered e) b = charge e (counted b)
