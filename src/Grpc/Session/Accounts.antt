-- ===== src/Grpc/Session/Accounts.antt =====
-- The transactions that come to a session of crates/indexer/src/infra/grpc/session.rs.
use yog_sothoth.Prelude.{
  ℕ, ◌+◌, ◌≡◌, refl, sym, ap, true, Option, none, some, List, [], ◌∷◌, arith, length,
}
use yog_sothoth.Domain.Protocols.{Protocol, Result}
use yog_sothoth.Grpc.Buffer.Banks.{Bank, from_wire, from_status}
use yog_sothoth.Grpc.Buffer.Known.{Instant}
use yog_sothoth.Grpc.Buffer.{Resolved}
use yog_sothoth.Grpc.Buffer.Run.{Message, to_list, step}
use yog_sothoth.Grpc.Buffer.Sound.{IsReady, accounted, step-Settles}
use yog_sothoth.Grpc.Session.Progress.{
  SlotProgress, PendingTransaction, TransactionUpdate, BlockMeta, SlotStatus, Level, processed,
  confirmed, finalized, other_level, on_transaction, on_slot_status, on_level, report_bank_naming,
  close_slot, see_meta,
}
use yog_sothoth.Grpc.Session.Progress
use yog_sothoth.Grpc.Session.Deliveries.{
  SessionState, open_state, CoreError, Answer, dropped-record_dropped, emitted-record_dropped,
  unroutable, downstream_closed, shutdown_requested, unless_ended,
}
use yog_sothoth.Grpc.Session.{
  StreamSession, Update, UpdateOneof, transaction, block_meta, ping, pong, other, SendOutcome,
  handle, handle_oneof, handle_all, on_transaction_of, on_block_meta_update, on_slot_update,
  protocol_of, deliver_one, deliver_released, receive,
}
use yog_sothoth.Grpc.Session.Disposed.{disposed, EmitsSent, deliver-Disposes, deliver_all-Disposes}

module _ {M : Type 0} where
  abbrev SlotsSettle :
      ℕ → SlotProgress M → SlotProgress M × List (Resolved (PendingTransaction M)) → Type 0
  SlotsSettle n p r =
      IsReady r.0.buffer × (accounted r.0.buffer + length r.1 ≡ accounted p.buffer + n)

  report-buffer : (bank : Bank) (p : SlotProgress M) → (report_bank_naming bank p).buffer ≡ p.buffer
  unfolding report_bank_naming
  report-buffer bank p = ground arith

  on_transaction-SlotsSettle :
      (t : PendingTransaction M) (p : SlotProgress M)
      → IsReady p.buffer
      → let r = on_transaction t p in SlotsSettle 1 p (r.0, to_list r.1)
  unfolding on_transaction step
  on_transaction-SlotsSettle t p h =
      rw (report-buffer (from_wire t.update.bank_id) p)
        (step-Settles p.buffer (Message.payload t.update.slot (from_wire t.update.bank_id) t) h)

  on_level-SlotsSettle :
      (l : Level) (s : SlotStatus) (p : SlotProgress M)
      → IsReady p.buffer
      → SlotsSettle 0 p (on_level l s p)
  unfolding on_level step
  on_level-SlotsSettle finalized s p h =
      rw (report-buffer (from_status s.bank_id) p)
        (step-Settles p.buffer (Message.finalized s.slot (from_status s.bank_id)) h)
  on_level-SlotsSettle processed s p h = (h, omega arith)
  on_level-SlotsSettle confirmed s p h = (h, omega arith)
  on_level-SlotsSettle other_level s p h = (h, omega arith)

  close_slot-SlotsSettle :
      (slot : ℕ) (bank : Bank) (o : Option Instant) (p q : SlotProgress M)
      → q.buffer ≡ p.buffer
      → IsReady p.buffer
      → SlotsSettle 0 p (close_slot slot bank o q)
  unfolding close_slot step
  close_slot-SlotsSettle slot bank none p q e h =
      rw e (step-Settles p.buffer (Message.no_block_time slot bank) h)
  close_slot-SlotsSettle slot bank (some t) p q e h =
      rw e (step-Settles p.buffer (Message.block_time slot bank t) h)

on_block_meta-SlotsSettle :
    {M Seconds : Type 0} (from_timestamp : Seconds → Option Instant) (meta : BlockMeta Seconds)
    (p : SlotProgress M)
    → IsReady p.buffer
    → SlotsSettle 0 p (Progress.on_block_meta from_timestamp meta p)
unfolding Progress.on_block_meta
on_block_meta-SlotsSettle from_timestamp meta p h =
    let bank = from_wire meta.bank_id in
    close_slot-SlotsSettle meta.slot bank (Progress.block_time from_timestamp meta) p
      (see_meta meta.slot (report_bank_naming bank p)) (report-buffer bank p) h

module _ {M Seconds : Type 0} where
  abbrev pub transactions_of : UpdateOneof M Seconds → ℕ
  transactions_of (transaction u) = 1
  transactions_of u = 0

  abbrev pub transactions_in : List (Update M Seconds) → ℕ
  transactions_in [] = 0
  transactions_in (u ∷ us) = transactions_of u.update_oneof + transactions_in us

module _ {M Tx : Type 0} where
  -- The transactions that a session has in its books: put on the channel, dropped for a reason,
  -- waiting in the buffer, or dropped by the buffer for a reason.
  abbrev pub booked : StreamSession M Tx → ℕ
  booked s = disposed s.delivery + accounted s.slots.buffer

  -- The buffer stays ready, and the counter of what was emitted moves with what was put on the
  -- channel; and `n` more are booked, if the session stays open.
  abbrev pub Booked : ℕ → StreamSession M Tx → StreamSession M Tx × SessionState → Type 0
  Booked n s r =
      IsReady r.0.slots.buffer
      × EmitsSent s.delivery r.0.delivery
      × (r.1 ≡ open_state → booked r.0 ≡ booked s + n)

  unless_ended-Booked :
      (n k : ℕ) (s : StreamSession M Tx) (x : StreamSession M Tx × SessionState)
      (next : StreamSession M Tx → StreamSession M Tx × SessionState)
      → Booked n s x
      → ((t : StreamSession M Tx) → IsReady t.slots.buffer → Booked k t (next t))
      → Booked (n + k) s (unless_ended x next)
  unless_ended-Booked n k s (t, open_state) next (ready, emits, one) rest =
      let (ready', emits', two) = rest t ready in
      (ready', omega (arith, emits, emits'), λ e. omega (arith, one refl, two e))
  unless_ended-Booked n k s (t, downstream_closed) next (ready, emits, one) rest =
      (ready, emits, λ e. ground arith)
  unless_ended-Booked n k s (t, shutdown_requested) next (ready, emits, one) rest =
      (ready, emits, λ e. ground arith)

module _ {M Seconds Tx : Type 0} (from_timestamp : Seconds → Option Instant)
    (from_grpc : TransactionUpdate M → Instant → Result CoreError Tx) (consumer : ℕ → Answer)
    (outbound : ℕ → SendOutcome) where
  deliver_one-Booked :
      (n : ℕ) (s t : StreamSession M Tx) (o : Option (Resolved (PendingTransaction M)))
      → IsReady t.slots.buffer
      → t.delivery ≡ s.delivery
      → (accounted t.slots.buffer + length (to_list o) ≡ accounted s.slots.buffer + n)
      → Booked n s (deliver_one from_timestamp from_grpc consumer outbound t o)
  deliver_one-Booked n s t none h d e = (h, rw d (omega arith), λ _. rw d (omega arith))
  deliver_one-Booked n s t (some r) h d e =
      let (emits, one) = deliver-Disposes from_grpc consumer r.payload r.at_instant t.delivery in
      (h, rw (sym d) emits, λ o. omega (arith, one o, ap disposed d))

  deliver_released-Booked :
      (n : ℕ) (s t : StreamSession M Tx) (rs : List (Resolved (PendingTransaction M)))
      → IsReady t.slots.buffer
      → t.delivery ≡ s.delivery
      → (accounted t.slots.buffer + length rs ≡ accounted s.slots.buffer + n)
      → Booked n s (deliver_released from_timestamp from_grpc consumer outbound t rs)
  deliver_released-Booked n s t rs h d e =
      let (emits, all) = deliver_all-Disposes from_grpc consumer rs t.delivery in
      (h, rw (sym d) emits, λ o. omega (arith, all o, ap disposed d))

  received-Booked :
      (n : ℕ) (at : Option Instant) (s t : StreamSession M Tx)
      (rs : List (Resolved (PendingTransaction M)))
      → SlotsSettle 0 s.slots (t.slots, rs)
      → t.delivery ≡ s.delivery
      → Booked 0 s (
          deliver_released from_timestamp from_grpc consumer outbound
            (receive from_timestamp from_grpc consumer outbound n at t)
            rs)
  received-Booked n none s t rs (ready, balance) e =
      deliver_released-Booked 0 s t rs ready e balance
  received-Booked n (some at) s t rs (ready, balance) e =
      deliver_released-Booked 0 s (receive from_timestamp from_grpc consumer outbound n (some at) t)
        rs ready e balance

  handle_oneof-Booked :
      (u : UpdateOneof M Seconds) (p : Option Protocol) (s : StreamSession M Tx)
      → IsReady s.slots.buffer
      → Booked (transactions_of u) s (handle_oneof from_timestamp from_grpc consumer outbound u p s)
  unfolding handle_oneof on_transaction_of on_slot_update on_block_meta_update on_slot_status
  handle_oneof-Booked (transaction u) none s h = (
    h,
    omega (arith, emitted-record_dropped unroutable s.delivery.metrics),
    λ _. omega (arith, dropped-record_dropped unroutable s.delivery.metrics),
  )
  handle_oneof-Booked (transaction u) (some p) s h =
      let pending : PendingTransaction M = record { protocol = p; update = u } in
      let (ready, balance) = on_transaction-SlotsSettle pending s.slots h in
      deliver_one-Booked 1 s
        (record s { slots = (on_transaction pending s.slots).0; received_data = true })
        (on_transaction pending s.slots).1 ready refl balance
  handle_oneof-Booked (block_meta meta) p s h =
      let r = Progress.on_block_meta from_timestamp meta s.slots in
      let counted : StreamSession M Tx = record s {
        slots = r.0;
        received_data = true;
        block_metas = s.block_metas + 1;
      } in
      let at = Progress.block_time from_timestamp meta in
      received-Booked meta.slot at s counted r.1
        (on_block_meta-SlotsSettle from_timestamp meta s.slots h) refl
  handle_oneof-Booked (UpdateOneof.slot status) p s h =
      let (ready, balance) = on_level-SlotsSettle status.status status s.slots h in
      deliver_released-Booked 0 s
        (record s { slots = (on_slot_status status s.slots).0; received_data = true })
        (on_slot_status status s.slots).1 ready refl balance
  handle_oneof-Booked ping p s h = (h, omega arith, λ _. omega arith)
  handle_oneof-Booked pong p s h = (h, omega arith, λ _. omega arith)
  handle_oneof-Booked other p s h = (h, omega arith, λ _. omega arith)

  handle-Booked :
      (u : Update M Seconds) (s : StreamSession M Tx)
      → IsReady s.slots.buffer
      → Booked
          (transactions_of u.update_oneof)
          s
          (handle from_timestamp from_grpc consumer outbound u s)
  unfolding handle
  handle-Booked u s h = handle_oneof-Booked u.update_oneof (protocol_of u.filters) s h

  -- Whatever updates come to a session whose buffer is ready, the buffer stays ready, the counter
  -- of emitted transactions moves by as many as were put on the channel, and while the session
  -- stays open each transaction that came in was put on the channel, was dropped for a counted
  -- reason, waits in the buffer, or was counted by the buffer as dropped.
  pub handle_all-Booked :
      (us : List (Update M Seconds)) (s : StreamSession M Tx)
      → IsReady s.slots.buffer
      → Booked (transactions_in us) s (handle_all from_timestamp from_grpc consumer outbound us s)
  unfolding handle_all
  handle_all-Booked [] s h = (h, omega arith, λ _. omega arith)
  handle_all-Booked (u ∷ us) s h =
      unless_ended-Booked (transactions_of u.update_oneof) (transactions_in us) s
        (handle from_timestamp from_grpc consumer outbound u s)
        (handle_all from_timestamp from_grpc consumer outbound us) (handle-Booked u s h)
        (handle_all-Booked us)
