-- ===== src/Rpc/Worker.antt =====
-- crates/indexer/src/infra/rpc/subscription_worker.rs: one address's subscription, kept open under a
-- retry budget. What each connection ends with comes from outside, as a list.
use yog_sothoth.Prelude.{
  ℕ, ◌+◌, ◌*◌, min, Bool, Option, none, some, List, [], ◌∷◌, leb, if◌then◌else◌,
}
use Prim.Native.String.{String}
use yog_sothoth.Domain.Protocols.{Protocol, Result, ok, err}
use yog_sothoth.Rpc.Fleet.{SubscriptionTarget, RetriesExhausted}

abbrev pub initial_backoff_secs : ℕ
initial_backoff_secs = 1

abbrev pub max_backoff_secs : ℕ
max_backoff_secs = 60

-- crates/indexer/src/infra/rpc/types/subscription_event.rs.
pub data SubscriptionEvent : Type 0 where
  subscribed : Protocol → ℕ → SubscriptionEvent
  stream_closed : Protocol → ℕ → ℕ → SubscriptionEvent
  retry_failed : Protocol → ℕ → ℕ → String → SubscriptionEvent
  giving_up : Protocol → ℕ → String → SubscriptionEvent
  shutdown_completed : Protocol → ℕ → SubscriptionEvent

pub data ConnectOutcome : Type 0 where
  shutdown_requested dispatcher_closed stream_closed : ConnectOutcome
  failed : String → ConnectOutcome

-- One round: whether the token is cancelled at its head, whether the connection got as far as the
-- event `Subscribed`, and what it ended with.
pub record Round : Type 0 where
  pub is_cancelled : Bool
  pub has_subscribed : Bool
  pub ended : ConnectOutcome

pub record Outcome : Type 0 where
  pub events : List SubscriptionEvent
  pub waits : List ℕ
  pub result : Option (Result RetriesExhausted Unit)

module _ (t : SubscriptionTarget) where
  abbrev pub completed : Outcome
  completed = record {
    events = shutdown_completed t.protocol t.mention ∷ [];
    waits = [];
    result = some (ok tt);
  }

  abbrev pub emitted : SubscriptionEvent → Outcome → Outcome
  emitted e o = record o { events = e ∷ o.events }

  abbrev pub slept : ℕ → Outcome → Outcome
  slept secs o = record o { waits = secs ∷ o.waits }

  -- The end of a failed attempt, by its number.
  abbrev pub after_failure : ℕ → ℕ → ℕ → String → (ℕ → ℕ → Outcome) → Outcome
  after_failure max_attempts attempt backoff e rest =
      if leb max_attempts attempt
      then record {
        events = giving_up t.protocol t.mention e ∷ [];
        waits = [];
        result = some (
            err (record {
              protocol = t.protocol;
              mention = t.mention;
              attempts = attempt;
              last_error = e;
            }));
      }
      else slept backoff (rest attempt (min (backoff * 2) max_backoff_secs))

  -- The `match` on what the connection ended with.
  unfoldable pub settle : ℕ → ℕ → ℕ → ConnectOutcome → (ℕ → ℕ → Outcome) → Outcome
  settle max_attempts attempt backoff shutdown_requested rest = completed
  settle max_attempts attempt backoff dispatcher_closed rest = completed
  settle max_attempts attempt backoff stream_closed rest =
      emitted (SubscriptionEvent.stream_closed t.protocol t.mention attempt)
        (slept 1 (rest 0 initial_backoff_secs))
  settle max_attempts attempt backoff (failed e) rest =
      emitted (retry_failed t.protocol t.mention attempt e)
        (after_failure max_attempts attempt backoff e rest)

  abbrev pub announced : Bool → Outcome → Outcome
  announced has_subscribed o =
      if has_subscribed then emitted (subscribed t.protocol t.mention) o else o

  -- `run`, from an attempt count and a backoff on.
  unfoldable pub rounds : ℕ → List Round → ℕ → ℕ → Outcome
  rounds max_attempts [] attempt backoff = record { events = []; waits = []; result = none }
  rounds max_attempts (r ∷ rs) attempt backoff =
      if r.is_cancelled
      then completed
      else announced r.has_subscribed
          (settle max_attempts (attempt + 1) backoff r.ended (rounds max_attempts rs))

  unfoldable pub run : ℕ → List Round → Outcome
  run max_attempts rs = rounds max_attempts rs 0 initial_backoff_secs
