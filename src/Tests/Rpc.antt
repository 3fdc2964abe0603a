-- ===== src/Tests/Rpc.antt =====
-- The JSON-RPC path of crates/indexer/src/infra/rpc on small inputs.
use yog_sothoth.Prelude.{
  ℕ, ◌≡◌, true, false, Option, none, some, List, [], ◌∷◌, refl, ◌==◌, if◌then◌else◌,
}
use Prim.Native.String.{String}
use yog_sothoth.Domain.Protocols.{Protocol, meteora_damm_v2, meteora_dlmm, ok, err}
use yog_sothoth.Rpc.Fleet.{SubscriptionTarget, RetriesExhausted, TaskResult}
use yog_sothoth.Rpc.Listener
use yog_sothoth.Rpc.Listener.{is_error}
use yog_sothoth.Rpc.Worker.{Round, ConnectOutcome, run}
use yog_sothoth.Rpc.Stops
use yog_sothoth.Rpc.Dispatcher.{
  RawLogEvent, Offer, Dispatch, default_filters, invocation_filter, failed_transaction_filter,
  any_starts_with,
}
use yog_sothoth.Rpc.Dispatcher
use yog_sothoth.Rpc.Dispatched

abbrev target : SubscriptionTarget
target = record { protocol = meteora_dlmm; mention = 7 }

abbrev exhausted : RetriesExhausted
exhausted = record { protocol = meteora_dlmm; mention = 7; attempts = 2; last_error = "refused" }

abbrev targets : List SubscriptionTarget
targets = target ∷ record { protocol = meteora_damm_v2; mention = 9 } ∷ []

-- The first worker ran out of retries, the second panicked.
abbrev await : SubscriptionTarget → TaskResult
await t =
    if t.mention == 7 then TaskResult.finished (err exhausted) else TaskResult.panicked "index"

run-Ends_example :
    is_error
      (Listener.run {E = ℕ} (λ n s. s) (λ s. s) (λ f. "all") (ok tt) (ok tt) targets await false)
    ≡ true
run-Ends_example =
    Listener.run-Ends (λ n s. s) (λ s. s) (λ f. "all") (ok tt) (ok tt) targets await false

-- The same fleet, once a stop was requested.
stopped :
    Listener.run {E = ℕ} (λ n s. s) (λ s. s) (λ f. "all") (ok tt) (ok tt) targets await true ≡ ok tt
unfolding Listener.run Listener.supervise Listener.build_subscription_targets Listener.after_join
stopped = refl

-- A stream that closes, and two connections that fail.
abbrev history : List Round
history =
    record { is_cancelled = false; has_subscribed = true; ended = ConnectOutcome.stream_closed }
    ∷ record { is_cancelled = false; has_subscribed = false; ended = ConnectOutcome.failed "a" }
    ∷ record {
      is_cancelled = false;
      has_subscribed = false;
      ended = ConnectOutcome.failed "refused";
    }
    ∷ []

run-finals_example :
    Stops.finals (run target 2 history).events
    ≡ Stops.last_word target (run target 2 history).result
run-finals_example = Stops.run-finals target 2 history

abbrev program_id : Protocol → String
program_id p = "Eo7W"

abbrev parse : String → Option String
parse s = some s

abbrev quiet : Dispatch String
quiet = record { received = 0; rejected = 0; malformed = 0; emitted = 0; saturated = 0; sent = [] }

-- One that invokes the program, one that only names it, and one that failed.
abbrev logged : List (RawLogEvent ℕ × Offer)
logged =
    (
      record {
        protocol = meteora_damm_v2;
        signature = "a";
        logs = "Program Eo7W invoke [1]" ∷ [];
        fault = none;
      },
      Offer.taken,
    )
    ∷ (
      record {
        protocol = meteora_damm_v2;
        signature = "b";
        logs = "Program log: Eo7W" ∷ [];
        fault = none;
      },
      Offer.taken,
    )
    ∷ (
      record {
        protocol = meteora_damm_v2;
        signature = "c";
        logs = "Program Eo7W invoke [1]" ∷ [];
        fault = some 6;
      },
      Offer.taken,
    )
    ∷ []

run-admitted_example :
    let u = Dispatcher.run parse (default_filters program_id) logged quiet in
    (u.sent ≡ record { protocol = meteora_damm_v2; signature = "a" } ∷ [])
    × (Dispatched.accounted u ≡ 3)
    × (u.received ≡ 3)
unfolding default_filters invocation_filter failed_transaction_filter any_starts_with
run-admitted_example = Dispatched.run-admitted parse (default_filters program_id) logged quiet
