-- ===== src/Rpc/Dispatcher.antt =====
-- crates/indexer/src/infra/rpc/dispatcher.rs and its filters: raw log events through the filter chain.
-- The text of a program id (base 58) and the parse of a signature are parameters; the indexer at the
-- other end of the channel answers each offer from outside.
use yog_sothoth.Prelude.{
  ℕ, ◌+◌, Bool, true, false, Option, none, some, List, [], ◌∷◌, ◌++◌, if◌then◌else◌,
}
use Prim.Native.String.{String, ◌++◌ as concat}
use text.Mathlib.Text.{starts_with}
use yog_sothoth.Domain.Protocols.{Protocol}

-- crates/indexer/src/infra/rpc/types/raw_log_event.rs. `Fault` is the chain's error.
pub record RawLogEvent (Fault : Type 0) : Type 0 where
  pub protocol : Protocol
  pub signature : String
  pub logs : List String
  pub fault : Option Fault

-- crates/indexer/src/infra/rpc/types/qualified_signature.rs.
pub record QualifiedSignature (Signature : Type 0) : Type 0 where
  pub protocol : Protocol
  pub signature : Signature

pub data FilterDecision : Type 0 where
  accept : FilterDecision
  reject : String → FilterDecision

-- `LogFilter`.
abbrev pub LogFilter : Type 0 → Type 0
LogFilter Fault = RawLogEvent Fault → FilterDecision

-- `try_send` on the channel to the indexer.
pub data Offer : Type 0 where
  taken full closed : Offer

-- The counters of `DispatcherMetrics`, over all protocols, and what was sent.
pub record Dispatch (Signature : Type 0) : Type 0 where
  pub received : ℕ
  pub rejected : ℕ
  pub malformed : ℕ
  pub emitted : ℕ
  pub saturated : ℕ
  pub sent : List (QualifiedSignature Signature)

unfoldable pub any_starts_with : String → List String → Bool
any_starts_with marker [] = false
any_starts_with marker (log ∷ logs) =
    let rest = any_starts_with marker logs in if starts_with log marker then true else rest

module _ {Fault : Type 0} where
  abbrev is_failed : Option Fault → Bool
  is_failed none = false
  is_failed (some e) = true

  -- `FailedTransactionFilter`.
  unfoldable pub failed_transaction_filter : LogFilter Fault
  failed_transaction_filter e =
      if is_failed e.fault then reject "transaction failed on-chain" else accept

  -- `InvocationFilter`.
  unfoldable pub invocation_filter : (Protocol → String) → LogFilter Fault
  invocation_filter program_id e =
      if any_starts_with (concat "Program " (concat (program_id e.protocol) " invoke")) e.logs
      then accept
      else reject "program not invoked (ALT-only reference)"

  -- `new_default`.
  unfoldable pub default_filters : (Protocol → String) → List (LogFilter Fault)
  default_filters program_id = invocation_filter program_id ∷ failed_transaction_filter ∷ []

module _ {Signature : Type 0} where
  -- The `match` on `try_send`.
  unfoldable pub send :
      QualifiedSignature Signature → Offer → Dispatch Signature → Dispatch Signature
  send q taken d = record d { emitted = d.emitted + 1; sent = d.sent ++ q ∷ [] }
  send q full d = record d { saturated = d.saturated + 1 }
  send q closed d = d

  -- After the filters: the parse of the signature.
  unfoldable pub qualify :
      Protocol → Option Signature → Offer → Dispatch Signature → Dispatch Signature
  unfolding send
  qualify protocol none o d = record d { malformed = d.malformed + 1 }
  qualify protocol (some signature) o d =
      send (record { protocol = protocol; signature = signature }) o d

  -- One filter: the rest of the chain, or a rejection.
  abbrev pub decide : FilterDecision → Dispatch Signature → Dispatch Signature → Dispatch Signature
  decide accept rest d = rest
  decide (reject reason) rest d = record d { rejected = d.rejected + 1 }

module _ {Fault Signature : Type 0} (parse : String → Option Signature) where
  -- The filter chain: the first that rejects ends it.
  unfoldable pub filtered :
      List (LogFilter Fault) → RawLogEvent Fault → Offer → Dispatch Signature → Dispatch Signature
  unfolding qualify
  filtered [] e o d = qualify e.protocol (parse e.signature) o d
  filtered (f ∷ fs) e o d = decide (f e) (filtered fs e o d) d

  unfoldable pub handle :
      List (LogFilter Fault) → RawLogEvent Fault → Offer → Dispatch Signature → Dispatch Signature
  unfolding filtered
  handle filters e o d = filtered filters e o (record d { received = d.received + 1 })

  -- `run`: the events in turn, each with the answer of the indexer if it is offered.
  unfoldable pub run :
      List (LogFilter Fault)
      → List (RawLogEvent Fault × Offer)
      → Dispatch Signature
      → Dispatch Signature
  run filters [] d = d
  run filters ((e, o) ∷ es) d = run filters es (handle filters e o d)
