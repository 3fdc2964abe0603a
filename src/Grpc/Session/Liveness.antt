-- ===== src/Grpc/Session/Liveness.antt =====
-- What a session of crates/indexer/src/infra/grpc/session.rs proves of its server: the marks by which
-- the listener tells a stream that delivered, and one that is alive.
use yog_sothoth.Prelude.{
  ℕ, ◌+◌, ◌*◌, ◌≡◌, refl, Bool, true, false, ◌||◌, Option, none, some, List, arith,
}
use yog_sothoth.Domain.Protocols.{Protocol, Result}
use yog_sothoth.Grpc.Buffer.Known.{Instant}
use yog_sothoth.Grpc.Buffer.{Resolved}
use yog_sothoth.Grpc.Session.Progress.{
  PendingTransaction, TransactionUpdate, BlockMeta, SlotStatus, on_transaction, on_slot_status,
  block_time,
}
use yog_sothoth.Grpc.Session.Progress
use yog_sothoth.Grpc.Session.Deliveries.{CoreError, Answer}
use yog_sothoth.Grpc.Session.{
  StreamSession, Update, UpdateOneof, transaction, block_meta, ping, pong, other, SendOutcome, sent,
  full, closed, PingAnswer, answer, pings_seen, handle, handle_oneof, on_transaction_of,
  on_block_meta_update, on_slot_update, protocol_of, deliver_one, deliver_released, receive,
}

-- How an answer to one ping fares: the number of it that leave, that find the outbound half full, and
-- that find it closed.
abbrev pub leaves : SendOutcome → ℕ
leaves sent = 1
leaves full = 0
leaves closed = 0

abbrev pub finds_full : SendOutcome → ℕ
finds_full sent = 0
finds_full full = 1
finds_full closed = 0

abbrev pub finds_closed : SendOutcome → ℕ
finds_closed sent = 0
finds_closed full = 0
finds_closed closed = 1

-- `n` answers more, each of which fares as `o`.
pub record Answers (n : ℕ) (o : SendOutcome) (p q : PingAnswer) : Type 0 where
  pub left : q.answered ≡ p.answered + n * leaves o
  pub was_full : q.outbound_full ≡ p.outbound_full + n * finds_full o
  pub was_closed : q.outbound_closed ≡ p.outbound_closed + n * finds_closed o

Answers-answer : (o : SendOutcome) (p : PingAnswer) → Answers 1 o p (answer o p)
unfolding answer
Answers-answer sent p = record {
  left = omega arith;
  was_full = omega arith;
  was_closed = omega arith;
}
Answers-answer full p = record {
  left = omega arith;
  was_full = omega arith;
  was_closed = omega arith;
}
Answers-answer closed p = record {
  left = omega arith;
  was_full = omega arith;
  was_closed = omega arith;
}

Answers-none : (o : SendOutcome) (p q : PingAnswer) → q ≡ p → Answers 0 o p q
Answers-none o p q e = record {
  left = rw e (omega arith);
  was_full = rw e (omega arith);
  was_closed = rw e (omega arith);
}

or_true : (b : Bool) → true ≡ b || true
or_true b = ground arith

or_false : (b : Bool) → b ≡ b || false
or_false b = ground arith

module _ {M Seconds : Type 0} where
  abbrev pub is_data : UpdateOneof M Seconds → Bool
  is_data (transaction u) = true
  is_data (block_meta meta) = true
  is_data (UpdateOneof.slot status) = true
  is_data ping = false
  is_data pong = false
  is_data other = false

  abbrev pub block_metas_of : UpdateOneof M Seconds → ℕ
  block_metas_of (block_meta meta) = 1
  block_metas_of u = 0

  abbrev pub pings_of : UpdateOneof M Seconds → ℕ
  pings_of ping = 1
  pings_of u = 0

module _ {M Seconds Tx : Type 0} (outbound : ℕ → SendOutcome) where
  -- How the marks move with one update; the outbound half answers by the number of the answer.
  pub record Marks (u : UpdateOneof M Seconds) (s t : StreamSession M Tx) : Type 0 where
    pub received : t.received_data ≡ s.received_data || is_data u
    pub metas : t.block_metas ≡ s.block_metas + block_metas_of u
    pub answers : Answers (pings_of u) (outbound (pings_seen s.pings)) s.pings t.pings

  data-Marks :
      (u : UpdateOneof M Seconds) (s t : StreamSession M Tx)
      → is_data u ≡ true
      → t.received_data ≡ true
      → t.block_metas ≡ s.block_metas + block_metas_of u
      → t.pings ≡ s.pings
      → pings_of u ≡ 0
      → Marks u s t
  data-Marks u s t d r m p n = record {
    received = rw (d, r) (or_true s.received_data);
    metas = m;
    answers = rw n (Answers-none (outbound (pings_seen s.pings)) s.pings t.pings p);
  }

  silent-Marks :
      (u : UpdateOneof M Seconds) (s t : StreamSession M Tx)
      → is_data u ≡ false
      → t.received_data ≡ s.received_data
      → t.block_metas ≡ s.block_metas
      → block_metas_of u ≡ 0
      → Answers (pings_of u) (outbound (pings_seen s.pings)) s.pings t.pings
      → Marks u s t
  silent-Marks u s t d r m z p = record {
    received = rw (d, r) (or_false s.received_data);
    metas = omega arith;
    answers = p;
  }

module _ {M Seconds Tx : Type 0} (from_timestamp : Seconds → Option Instant)
    (from_grpc : TransactionUpdate M → Instant → Result CoreError Tx) (consumer : ℕ → Answer)
    (outbound : ℕ → SendOutcome) where
  delivered_one :
      (s t : StreamSession M Tx) (u : TransactionUpdate M)
      (o : Option (Resolved (PendingTransaction M)))
      → Marks {Seconds = Seconds} outbound (transaction u) s t
      → Marks {Seconds = Seconds} outbound
          (transaction u)
          s
          (deliver_one from_timestamp from_grpc consumer outbound t o).0
  delivered_one s t u none m = m
  delivered_one s t u (some r) m = record {
    received = m.received;
    metas = m.metas;
    answers = m.answers;
  }

  received_one :
      (s t : StreamSession M Tx) (u : UpdateOneof M Seconds) (n : ℕ) (o : Option Instant)
      → Marks outbound u s t
      → Marks outbound u s (receive from_timestamp from_grpc consumer outbound n o t)
  received_one s t u n none m = m
  received_one s t u n (some at) m = record {
    received = m.received;
    metas = m.metas;
    answers = m.answers;
  }

  delivered_all :
      (s t : StreamSession M Tx) (u : UpdateOneof M Seconds)
      (rs : List (Resolved (PendingTransaction M)))
      → Marks outbound u s t
      → Marks outbound u s (deliver_released from_timestamp from_grpc consumer outbound t rs).0
  delivered_all s t u rs m = record { received = m.received; metas = m.metas; answers = m.answers }

  handle_oneof-Marks :
      (u : UpdateOneof M Seconds) (p : Option Protocol) (s : StreamSession M Tx)
      → Marks outbound u s (handle_oneof from_timestamp from_grpc consumer outbound u p s).0
  unfolding handle_oneof on_transaction_of on_slot_update on_block_meta_update
  handle_oneof-Marks (transaction u) none s =
      data-Marks outbound (transaction u) s _ refl refl (omega arith) refl refl
  handle_oneof-Marks (transaction u) (some p) s =
      let pending : PendingTransaction M = record { protocol = p; update = u } in
      let t : StreamSession M Tx = record s {
        slots = (on_transaction pending s.slots).0;
        received_data = true;
      } in
      delivered_one s t u (on_transaction pending s.slots).1
        (data-Marks outbound (transaction u) s t refl refl (omega arith) refl refl)
  handle_oneof-Marks (block_meta meta) p s =
      let r = Progress.on_block_meta from_timestamp meta s.slots in
      let t : StreamSession M Tx = record s {
        slots = r.0;
        received_data = true;
        block_metas = s.block_metas + 1;
      } in
      let at = block_time from_timestamp meta in
      delivered_all s (receive from_timestamp from_grpc consumer outbound meta.slot at t)
        (block_meta meta) r.1
        (received_one s t (block_meta meta) meta.slot at
          (data-Marks outbound (block_meta meta) s t refl refl refl refl refl))
  handle_oneof-Marks (UpdateOneof.slot status) p s =
      let t : StreamSession M Tx = record s {
        slots = (on_slot_status status s.slots).0;
        received_data = true;
      } in
      delivered_all s t (UpdateOneof.slot status) (on_slot_status status s.slots).1
        (data-Marks outbound (UpdateOneof.slot status) s t refl refl (omega arith) refl refl)
  handle_oneof-Marks ping p s =
      silent-Marks outbound ping s _ refl refl refl refl
        (Answers-answer (outbound (pings_seen s.pings)) s.pings)
  handle_oneof-Marks pong p s =
      silent-Marks outbound pong s s refl refl refl refl
        (Answers-none (outbound (pings_seen s.pings)) s.pings s.pings refl)
  handle_oneof-Marks other p s =
      silent-Marks outbound other s s refl refl refl refl
        (Answers-none (outbound (pings_seen s.pings)) s.pings s.pings refl)

  -- An update sets the mark of received data unless it is a ping, a pong or an unknown one, and
  -- counts as a block-meta exactly if it is one; a ping is answered once, and the answer is
  -- counted as sent, as finding the outbound half full, or as finding it closed, exactly as that
  -- half took it; no other update moves these counters.
  pub handle-Marks :
      (u : Update M Seconds) (s : StreamSession M Tx)
      → Marks outbound u.update_oneof s (handle from_timestamp from_grpc consumer outbound u s).0
  unfolding handle
  handle-Marks u s = handle_oneof-Marks u.update_oneof (protocol_of u.filters) s
