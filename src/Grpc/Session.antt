-- ===== src/Grpc/Session.antt =====
-- crates/indexer/src/infra/grpc/session.rs: one subscription's state, and what each update does. The
-- consumer and the server's end of the outbound half answer as environments, by the number of the
-- offer; the conversions of chrono and of the transaction adapter are parameters.
pub mod Progress
pub mod Span
pub mod Received
pub mod Deliveries
pub mod Disposed
pub mod Accounts
pub mod Liveness
use yog_sothoth.Prelude.{ℕ, suc, ◌+◌, Bool, true, false, Option, none, some, List, [], ◌∷◌}
use yog_sothoth.Prelude.Map.{Map}
use Prim.Native.String.{String}
use yog_sothoth.Domain.Protocols.{Protocol, Result, ok, err, from_str}
use yog_sothoth.Grpc.Buffer.Known.{Instant}
use yog_sothoth.Grpc.Buffer.Waiting.{BufferMetrics}
use yog_sothoth.Grpc.Buffer.{Resolved}
use yog_sothoth.Grpc.Ranges.{RangesToRecord}
use yog_sothoth.Grpc.Session.Progress.{
  SlotProgress, PendingTransaction, TransactionUpdate, BlockMeta, SlotStatus, block_time,
  on_transaction, on_slot_status, settled_below,
}
use yog_sothoth.Grpc.Session.Progress
use yog_sothoth.Grpc.Session.Received.{ReceivedSlots, on_block_meta}
use yog_sothoth.Grpc.Session.Deliveries.{
  Delivery, SessionState, open_state, unless_ended, CoreError, Answer, record_dropped, unroutable,
  deliver, deliver_all,
}

-- `SubscribeUpdate`: the filters that it matched, and one kind of message.
pub data UpdateOneof (M Seconds : Type 0) : Type 0 where
  transaction : TransactionUpdate M → UpdateOneof M Seconds
  block_meta : BlockMeta Seconds → UpdateOneof M Seconds
  slot : SlotStatus → UpdateOneof M Seconds
  ping pong other : UpdateOneof M Seconds

pub record Update (M Seconds : Type 0) : Type 0 where
  pub filters : List String
  pub update_oneof : UpdateOneof M Seconds

-- `protocol_of` of crates/indexer/src/infra/grpc/subscription.rs: the first filter that names one.
unfoldable pub protocol_of : List String → Option Protocol
protocol_of [] = none
protocol_of (name ∷ names) = elim (from_str name) [ ok p ↦ some p | err e ↦ protocol_of names ]

-- `try_send` on the outbound half.
pub data SendOutcome : Type 0 where
  sent full closed : SendOutcome

-- `PingAnswer` of crates/indexer/src/infra/grpc/session/ping_answer.rs: the answers sent, all of them
-- the one request with a ping and nothing else, and those that did not leave.
pub record PingAnswer : Type 0 where
  pub answered : ℕ
  pub outbound_full : ℕ
  pub outbound_closed : ℕ

unfoldable pub answer : SendOutcome → PingAnswer → PingAnswer
answer sent p = record p { answered = p.answered + 1 }
answer full p = record p { outbound_full = p.outbound_full + 1 }
answer closed p = record p { outbound_closed = p.outbound_closed + 1 }

abbrev pub pings_seen : PingAnswer → ℕ
pings_seen p = p.answered + p.outbound_full + p.outbound_closed

pub record StreamSession (M Tx : Type 0) : Type 0 where
  pub slots : SlotProgress M
  pub received_slots : ReceivedSlots
  pub delivery : Delivery Tx
  pub pings : PingAnswer
  pub received_data : Bool
  pub block_metas : ℕ
  pub ranges : RangesToRecord

module _ {M Seconds Tx : Type 0} (from_timestamp : Seconds → Option Instant)
    (from_grpc : TransactionUpdate M → Instant → Result CoreError Tx) (consumer : ℕ → Answer)
    (outbound : ℕ → SendOutcome) where
  abbrev data_received : StreamSession M Tx → StreamSession M Tx
  data_received s = record s { received_data = true }

  -- What is released goes to the consumer.
  abbrev deliver_released :
      StreamSession M Tx
      → List (Resolved (PendingTransaction M))
      → StreamSession M Tx × SessionState
  deliver_released s released =
      let (d, state) = deliver_all from_grpc consumer released s.delivery in
      (record s { delivery = d }, state)

  -- The end of `on_transaction`, on what `slots.on_transaction` gives back.
  abbrev deliver_one :
      StreamSession M Tx
      → Option (Resolved (PendingTransaction M))
      → StreamSession M Tx × SessionState
  deliver_one s none = (s, open_state)
  deliver_one s (some r) =
      let (d, state) = deliver from_grpc consumer r.payload r.at_instant s.delivery in
      (record s { delivery = d }, state)

  unfoldable pub on_transaction_of :
      Option Protocol → TransactionUpdate M → StreamSession M Tx → StreamSession M Tx × SessionState
  on_transaction_of none u s = (
    record s {
      delivery = record s.delivery { metrics = record_dropped unroutable s.delivery.metrics };
    },
    open_state,
  )
  on_transaction_of (some p) u s =
      let (slots', released) = on_transaction (record { protocol = p; update = u }) s.slots in
      deliver_one (record s { slots = slots' }) released

  -- The received slots take a timed block-meta in, once its slot's progress is known.
  abbrev receive : ℕ → Option Instant → StreamSession M Tx → StreamSession M Tx
  receive n none s = s
  receive n (some at) s =
      let (r, ranges') = on_block_meta n at (settled_below s.slots) s.received_slots s.ranges in
      record s { received_slots = r; ranges = ranges' }

  unfoldable pub on_block_meta_update :
      BlockMeta Seconds → StreamSession M Tx → StreamSession M Tx × SessionState
  on_block_meta_update meta s =
      let (slots', released) = Progress.on_block_meta from_timestamp meta s.slots in
      deliver_released
        (receive meta.slot (block_time from_timestamp meta)
          (record s { slots = slots'; received_data = true; block_metas = s.block_metas + 1 }))
        released

  unfoldable pub on_slot_update :
      SlotStatus → StreamSession M Tx → StreamSession M Tx × SessionState
  on_slot_update status s =
      let (slots', released) = on_slot_status status s.slots in
      deliver_released (record s { slots = slots'; received_data = true }) released

  unfoldable pub handle_oneof :
      UpdateOneof M Seconds
      → Option Protocol
      → StreamSession M Tx
      → StreamSession M Tx × SessionState
  handle_oneof (transaction u) p s = on_transaction_of p u (data_received s)
  handle_oneof (block_meta meta) p s = on_block_meta_update meta s
  handle_oneof (slot status) p s = on_slot_update status s
  handle_oneof ping p s =
      (record s { pings = answer (outbound (pings_seen s.pings)) s.pings }, open_state)
  handle_oneof pong p s = (s, open_state)
  handle_oneof other p s = (s, open_state)

  unfoldable pub handle : Update M Seconds → StreamSession M Tx → StreamSession M Tx × SessionState
  unfolding handle_oneof protocol_of
  handle u s = handle_oneof u.update_oneof (protocol_of u.filters) s

  -- The updates of one stream in turn, as the read loop of
  -- crates/indexer/src/infra/grpc/listener/connector.rs hands them in: the first that does not leave
  -- the session open is the last.
  unfoldable pub handle_all :
      List (Update M Seconds) → StreamSession M Tx → StreamSession M Tx × SessionState
  handle_all [] s = (s, open_state)
  handle_all (u ∷ us) s = unless_ended (handle u s) (λ s'. handle_all us s')
