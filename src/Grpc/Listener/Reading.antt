-- ===== src/Grpc/Listener/Reading.antt =====
-- The read loop of crates/indexer/src/infra/grpc/listener/connector.rs over one open stream. What wakes
-- each wait comes from outside, as a list; the texts of the errors are parameters.
use yog_sothoth.Prelude.{ℕ, Option, none, some, List, [], ◌∷◌, ◌==◌, if◌then◌else◌}
use Prim.Native.String.{String}
use yog_sothoth.Domain.Protocols.{Result}
use yog_sothoth.Grpc.Buffer.Known.{Instant}
use yog_sothoth.Grpc.Session.Progress.{TransactionUpdate}
use yog_sothoth.Grpc.Session.Deliveries.{
  SessionState, open_state, downstream_closed, shutdown_requested, CoreError, Answer,
}
use yog_sothoth.Grpc.Session.{StreamSession, Update, SendOutcome, handle}
use yog_sothoth.Grpc.Listener.Clock.{StallClock, on_wait_started, on_wait_ended, on_block_meta}
use yog_sothoth.Grpc.Listener.{Ending}

-- What `stream.message()` gives.
pub data Arrival (M Seconds Status : Type 0) : Type 0 where
  arrived : Update M Seconds → Arrival M Seconds Status
  closed : Arrival M Seconds Status
  broken : Status → Arrival M Seconds Status

-- The branch of `select!` that a wait ends in. A message comes with the instant the wait ended.
pub data Wake (M Seconds Status : Type 0) : Type 0 where
  cancelled slept : Wake M Seconds Status
  message : ℕ → Arrival M Seconds Status → Wake M Seconds Status

unfoldable pub ending_of : SessionState → Option Ending
ending_of open_state = none
ending_of downstream_closed = some Ending.downstream_closed
ending_of shutdown_requested = some Ending.shutdown_requested

-- Where the loop stands.
pub record Reader (M Tx : Type 0) : Type 0 where
  pub session : StreamSession M Tx
  pub clock : StallClock

module _ {M Tx : Type 0} where
  -- The clock is told of a block-meta if the session's count of them changed.
  abbrev pub tell : ℕ → StreamSession M Tx → StallClock → StallClock
  tell block_metas s c = if s.block_metas == block_metas then c else on_block_meta c

  abbrev pub unless_over :
      (Reader M Tx → Reader M Tx × Option Ending)
      → Reader M Tx × Option Ending
      → Reader M Tx × Option Ending
  unless_over next (r, none) = next r
  unless_over next (r, some ending) = (r, some ending)

module _ {M Seconds Tx Status : Type 0} (from_timestamp : Seconds → Option Instant)
    (from_grpc : TransactionUpdate M → Instant → Result CoreError Tx) (consumer : ℕ → Answer)
    (outbound : ℕ → SendOutcome) (stream_error : Status → String) (stall_error : String) where
  unfoldable pub on_message : Arrival M Seconds Status → Reader M Tx → Reader M Tx × Option Ending
  unfolding ending_of
  on_message (arrived update) r =
      let (s, state) = handle from_timestamp from_grpc consumer outbound update r.session in
      (record { session = s; clock = tell r.session.block_metas s r.clock }, ending_of state)
  on_message closed r = (r, some (Ending.stream_closed r.session.received_data))
  on_message (broken status) r =
      (r, some (Ending.failed (stream_error status) r.session.received_data))

  -- One wait, which began at an instant.
  unfoldable pub wake : ℕ → Wake M Seconds Status → Reader M Tx → Reader M Tx × Option Ending
  unfolding on_message
  wake began cancelled r =
      (record r { clock = on_wait_started began r.clock }, some Ending.shutdown_requested)
  wake began (message ended m) r =
      on_message m (record r { clock = on_wait_ended ended (on_wait_started began r.clock) })
  wake began slept r = (
    record r { clock = on_wait_started began r.clock },
    some (Ending.stalled stall_error r.session.received_data),
  )

  -- `read`, as far as the waits go.
  unfoldable pub read : List (ℕ × Wake M Seconds Status) → Reader M Tx → Reader M Tx × Option Ending
  read [] r = (r, none)
  read ((began, w) ∷ ws) r = unless_over (read ws) (wake began w r)
