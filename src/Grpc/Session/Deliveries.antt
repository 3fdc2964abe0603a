-- ===== src/Grpc/Session/Deliveries.antt =====
-- crates/indexer/src/infra/grpc/session/delivery.rs: handing a timestamped transaction on. The
-- consumer at the other end of the channel is an environment that answers each offer; the
-- translation of a transaction (`from_grpc`) is a parameter.
use yog_sothoth.Prelude.{ℕ, suc, ◌+◌, ◌≡◌, refl, List, [], ◌∷◌, ◌++◌, arith}
use yog_sothoth.Domain.Protocols.{Protocol, Result, ok, err}
pub use yog_sothoth.Domain.Errors.{CoreError}
use yog_sothoth.Grpc.Buffer.Known.{Instant}
use yog_sothoth.Grpc.Buffer.{Resolved}
use yog_sothoth.Grpc.Session.Progress.{PendingTransaction, TransactionUpdate}

-- Why a session ended, or that it has not.
pub data SessionState : Type 0 where
  open_state downstream_closed shutdown_requested : SessionState

-- What comes next, unless the session ended.
abbrev pub unless_ended :
    {S : Type 0} → S × SessionState → (S → S × SessionState) → S × SessionState
unless_ended x next = elim x.1 [
  | open_state ↦ next x.0
  | downstream_closed ↦ (x.0, downstream_closed)
  | shutdown_requested ↦ (x.0, shutdown_requested)
]

pub data DropReason : Type 0 where
  missing_field parse_error other_malformation unroutable : DropReason

-- crates/indexer/src/application/source.rs.
pub record IngestedTransaction (Tx : Type 0) : Type 0 where
  pub protocol : Protocol
  pub transaction : Tx

-- How the consumer takes one offer: at once, not at all, or after the wait of `wait_for_room`, which
-- a shutdown may end.
pub data Answer : Type 0 where
  taken closed : Answer
  full_then_taken full_then_closed full_then_shutdown : Answer

-- The counters of `GrpcListenerMetrics` that a session moves.
pub record ListenerMetrics : Type 0 where
  pub dropped_missing_field : ℕ
  pub dropped_parse_error : ℕ
  pub dropped_other : ℕ
  pub dropped_unroutable : ℕ
  pub emitted : ℕ
  pub downstream_full : ℕ

unfoldable pub record_dropped : DropReason → ListenerMetrics → ListenerMetrics
record_dropped missing_field m = record m { dropped_missing_field = m.dropped_missing_field + 1 }
record_dropped parse_error m = record m { dropped_parse_error = m.dropped_parse_error + 1 }
record_dropped other_malformation m = record m { dropped_other = m.dropped_other + 1 }
record_dropped unroutable m = record m { dropped_unroutable = m.dropped_unroutable + 1 }

abbrev pub dropped : ListenerMetrics → ℕ
dropped m = m.dropped_missing_field + m.dropped_parse_error + m.dropped_other + m.dropped_unroutable

pub dropped-record_dropped :
    (r : DropReason) (m : ListenerMetrics) → dropped (record_dropped r m) ≡ dropped m + 1
unfolding record_dropped
dropped-record_dropped missing_field m = omega arith
dropped-record_dropped parse_error m = omega arith
dropped-record_dropped other_malformation m = omega arith
dropped-record_dropped unroutable m = omega arith

pub emitted-record_dropped :
    (r : DropReason) (m : ListenerMetrics) → (record_dropped r m).emitted ≡ m.emitted
unfolding record_dropped
emitted-record_dropped missing_field m = refl
emitted-record_dropped parse_error m = refl
emitted-record_dropped other_malformation m = refl
emitted-record_dropped unroutable m = refl

unfoldable pub drop_reason : CoreError → DropReason
drop_reason (CoreError.missing_field signature field) = missing_field
drop_reason (CoreError.parse_error signature reason) = parse_error
drop_reason (CoreError.unknown_program id) = other_malformation
drop_reason (CoreError.invalid_account_data address reason) = other_malformation
drop_reason (CoreError.arithmetic_overflow context) = other_malformation
drop_reason (CoreError.fee_decode reason) = other_malformation
drop_reason (CoreError.unsupported_instruction signature) = other_malformation

-- What went down the channel, in order, and how many offers were made.
pub record Delivery (Tx : Type 0) : Type 0 where
  pub sent : List (IngestedTransaction Tx)
  pub offers : ℕ
  pub metrics : ListenerMetrics

module _ {Tx : Type 0} where
  abbrev emit : IngestedTransaction Tx → Delivery Tx → Delivery Tx
  emit t d = record d {
    sent = d.sent ++ t ∷ [];
    metrics = record d.metrics { emitted = d.metrics.emitted + 1 };
  }

  abbrev wait_counted : Delivery Tx → Delivery Tx
  wait_counted d = record d {
    metrics = record d.metrics { downstream_full = d.metrics.downstream_full + 1 };
  }

  -- `try_send`, and `wait_for_room` where the channel is full.
  unfoldable pub offer : Answer → IngestedTransaction Tx → Delivery Tx → Delivery Tx × SessionState
  offer taken t d = (emit t d, open_state)
  offer closed t d = (d, downstream_closed)
  offer full_then_taken t d = (emit t (wait_counted d), open_state)
  offer full_then_closed t d = (wait_counted d, downstream_closed)
  offer full_then_shutdown t d = (wait_counted d, shutdown_requested)

  abbrev drop_counted : DropReason → Delivery Tx → Delivery Tx
  drop_counted r d = record d { metrics = record_dropped r d.metrics }

module _ {M Tx : Type 0} (from_grpc : TransactionUpdate M → Instant → Result CoreError Tx)
    (consumer : ℕ → Answer) where
  -- The tail of `deliver`, on what the translation gives.
  unfoldable pub deliver_translated :
      Protocol → Result CoreError Tx → Delivery Tx → Delivery Tx × SessionState
  unfolding offer
  deliver_translated p (err e) d = (drop_counted (drop_reason e) d, open_state)
  deliver_translated p (ok tx) d =
      offer (consumer d.offers) (record { protocol = p; transaction = tx })
        (record d { offers = suc d.offers })

  unfoldable pub deliver : PendingTransaction M → Instant → Delivery Tx → Delivery Tx × SessionState
  unfolding deliver_translated
  deliver pending at d = deliver_translated pending.protocol (from_grpc pending.update at) d

  -- `StreamSession::deliver_all`: only a stop ends it, and the rest is not delivered then.
  unfoldable pub deliver_all :
      List (Resolved (PendingTransaction M)) → Delivery Tx → Delivery Tx × SessionState
  deliver_all [] d = (d, open_state)
  deliver_all (r ∷ rs) d = unless_ended (deliver r.payload r.at_instant d) (λ d'. deliver_all rs d')
