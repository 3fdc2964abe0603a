-- ===== src/Grpc/Session/Disposed.antt =====
-- The transactions that crates/indexer/src/infra/grpc/session/delivery.rs is handed.
use yog_sothoth.Prelude.{ℕ, suc, ◌+◌, ◌≡◌, refl, List, [], ◌∷◌, arith, length, length-append}
use yog_sothoth.Domain.Protocols.{Protocol, Result, ok, err}
use yog_sothoth.Grpc.Buffer.Known.{Instant}
use yog_sothoth.Grpc.Buffer.{Resolved}
use yog_sothoth.Grpc.Session.Progress.{PendingTransaction, TransactionUpdate}
use yog_sothoth.Grpc.Session.Deliveries.{
  Delivery, SessionState, open_state, CoreError, Answer, taken, closed, full_then_taken,
  full_then_closed, full_then_shutdown, dropped, dropped-record_dropped, emitted-record_dropped,
  drop_reason, offer, deliver, deliver_translated, deliver_all, IngestedTransaction,
  downstream_closed, shutdown_requested, unless_ended,
}

-- What a delivery has done with: put on the channel, or dropped for a reason.
abbrev pub disposed : {Tx : Type 0} → Delivery Tx → ℕ
disposed d = length d.sent + dropped d.metrics

-- The counter of what was emitted moves with what was put on the channel.
abbrev pub EmitsSent : {Tx : Type 0} → Delivery Tx → Delivery Tx → Type 0
EmitsSent d e = e.metrics.emitted + length d.sent ≡ d.metrics.emitted + length e.sent

-- A transaction more is done with, if the session stays open.
abbrev pub Disposes : {Tx : Type 0} → ℕ → Delivery Tx → Delivery Tx × SessionState → Type 0
Disposes n d r = EmitsSent d r.0 × (r.1 ≡ open_state → disposed r.0 ≡ disposed d + n)

offer-Disposes :
    {Tx : Type 0} (a : Answer) (t : IngestedTransaction Tx) (d : Delivery Tx)
    → Disposes 1 d (offer a t d)
unfolding offer
offer-Disposes taken t d =
    let one = length-append d.sent (t ∷ []) in (omega (arith, one), λ e. omega (arith, one))
offer-Disposes closed t d = (omega arith, λ e. ground arith)
offer-Disposes full_then_taken t d =
    let one = length-append d.sent (t ∷ []) in (omega (arith, one), λ e. omega (arith, one))
offer-Disposes full_then_closed t d = (omega arith, λ e. ground arith)
offer-Disposes full_then_shutdown t d = (omega arith, λ e. ground arith)

unless_ended-Disposes :
    {Tx : Type 0} (n k : ℕ) (d : Delivery Tx) (x : Delivery Tx × SessionState)
    (next : Delivery Tx → Delivery Tx × SessionState)
    → Disposes n d x
    → ((d' : Delivery Tx) → Disposes k d' (next d'))
    → Disposes (n + k) d (unless_ended x next)
unless_ended-Disposes n k d (d', open_state) next (emits, one) rest =
    let (emits', two) = rest d' in
    (omega (arith, emits, emits'), λ e. omega (arith, one refl, two e))
unless_ended-Disposes n k d (d', downstream_closed) next (emits, one) rest =
    (emits, λ e. ground arith)
unless_ended-Disposes n k d (d', shutdown_requested) next (emits, one) rest =
    (emits, λ e. ground arith)

module _ {M Tx : Type 0} (from_grpc : TransactionUpdate M → Instant → Result CoreError Tx)
    (consumer : ℕ → Answer) where
  translated-Disposes :
      (p : Protocol) (r : Result CoreError Tx) (d : Delivery Tx)
      → Disposes 1 d (deliver_translated from_grpc consumer p r d)
  unfolding deliver_translated
  translated-Disposes p (err e) d = (
    omega (arith, emitted-record_dropped (drop_reason e) d.metrics),
    λ h. omega (arith, dropped-record_dropped (drop_reason e) d.metrics),
  )
  translated-Disposes p (ok tx) d =
      offer-Disposes (consumer d.offers) (record { protocol = p; transaction = tx })
        (record d { offers = suc d.offers })

  pub deliver-Disposes :
      (t : PendingTransaction M) (at : Instant) (d : Delivery Tx)
      → Disposes 1 d (deliver from_grpc consumer t at d)
  unfolding deliver
  deliver-Disposes t at d = translated-Disposes t.protocol (from_grpc t.update at) d

  pub deliver_all-Disposes :
      (rs : List (Resolved (PendingTransaction M))) (d : Delivery Tx)
      → Disposes (length rs) d (deliver_all from_grpc consumer rs d)
  unfolding deliver_all
  deliver_all-Disposes [] d = (omega arith, λ e. omega arith)
  deliver_all-Disposes (r ∷ rs) d =
      let (emits, all) =
        unless_ended-Disposes 1 (length rs) d (deliver from_grpc consumer r.payload r.at_instant d)
          (deliver_all from_grpc consumer rs) (deliver-Disposes r.payload r.at_instant d)
          (deliver_all-Disposes rs) in
      (emits, λ e. omega (arith, all e))
