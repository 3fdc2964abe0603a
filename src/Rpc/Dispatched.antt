-- ===== src/Rpc/Dispatched.antt =====
-- What crates/indexer/src/infra/rpc/dispatcher.rs sends on, and what it counts.
use yog_sothoth.Prelude.{
  ℕ, ◌+◌, ◌≡◌, ◌∙◌, refl, sym, ap, Bool, true, false, ◌&&◌, Option, none, some, List, [], ◌∷◌, ◌++◌,
  arith, length, if◌then◌else◌,
}
use mathlib.Core.List.{append-nil, append_assoc}
use Prim.Native.String.{String}
use yog_sothoth.Domain.Protocols.{Protocol}
use yog_sothoth.Rpc.Dispatcher.{
  RawLogEvent, QualifiedSignature, FilterDecision, accept, reject, LogFilter, Offer, taken, full,
  closed, Dispatch, send, qualify, filtered, handle, run, decide,
}

-- What the counters have of the events received.
abbrev pub accounted : {Signature : Type 0} → Dispatch Signature → ℕ
accounted d = d.rejected + d.malformed + d.emitted + d.saturated

-- One event more, unless its signature is offered to a closed channel.
abbrev counted : {Signature : Type 0} → Option Signature → Offer → ℕ
counted none o = 1
counted (some s) taken = 1
counted (some s) full = 1
counted (some s) closed = 0

abbrev pub accepts : FilterDecision → Bool
accepts accept = true
accepts (reject reason) = false

module _ {Fault : Type 0} where
  -- Every filter accepts the event.
  abbrev pub passes : List (LogFilter Fault) → RawLogEvent Fault → Bool
  passes [] e = true
  passes (f ∷ fs) e = accepts (f e) && passes fs e

module _ {Signature : Type 0} where
  abbrev qualified : Protocol → Option Signature → Offer → List (QualifiedSignature Signature)
  qualified protocol none o = []
  qualified protocol (some s) taken = record { protocol = protocol; signature = s } ∷ []
  qualified protocol (some s) full = []
  qualified protocol (some s) closed = []

  -- What a step does: it sends this, and counts this many more of the events.
  pub record Step (out : List (QualifiedSignature Signature)) (n : ℕ) (d u : Dispatch Signature)
      : Type 0 where
    pub sends : u.sent ≡ d.sent ++ out
    pub counts : accounted u ≡ accounted d + n
    pub same : u.received ≡ d.received

  qualify-Step :
      (p : Protocol) (s : Option Signature) (o : Offer) (d : Dispatch Signature)
      → Step (qualified p s o) (counted s o) d (qualify p s o d)
  unfolding qualify send
  qualify-Step p none o d = record {
    sends = sym (append-nil d.sent);
    counts = omega arith;
    same = refl;
  }
  qualify-Step p (some s) taken d = record { sends = refl; counts = omega arith; same = refl }
  qualify-Step p (some s) full d = record {
    sends = sym (append-nil d.sent);
    counts = omega arith;
    same = refl;
  }
  qualify-Step p (some s) closed d = record {
    sends = sym (append-nil d.sent);
    counts = omega arith;
    same = refl;
  }

  decide-Step :
      (x : FilterDecision) (b : Bool) (out : List (QualifiedSignature Signature)) (n : ℕ)
      (d u : Dispatch Signature)
      → Step (if b then out else []) (if b then n else 1) d u
      → Step (if accepts x && b then out else []) (if accepts x && b then n else 1) d (decide x u d)
  decide-Step accept b out n d u s = s
  decide-Step (reject reason) b out n d u s = record {
    sends = sym (append-nil d.sent);
    counts = omega arith;
    same = refl;
  }

module _ {Fault Signature : Type 0} (parse : String → Option Signature) where
  -- The signatures of the events that pass every filter, parse, and find room, in order.
  abbrev pub admitted :
      List (LogFilter Fault)
      → List (RawLogEvent Fault × Offer)
      → List (QualifiedSignature Signature)
  admitted filters [] = []
  admitted filters ((e, o) ∷ es) =
      (if passes filters e then qualified e.protocol (parse e.signature) o else [])
      ++ admitted filters es

  -- One for each event, but for those that a closed channel loses.
  abbrev pub counted_in : List (LogFilter Fault) → List (RawLogEvent Fault × Offer) → ℕ
  counted_in filters [] = 0
  counted_in filters ((e, o) ∷ es) =
      (if passes filters e then counted (parse e.signature) o else 1) + counted_in filters es

  filtered-Step :
      (filters : List (LogFilter Fault)) (e : RawLogEvent Fault) (o : Offer)
      (d : Dispatch Signature)
      → Step
          (if passes filters e then qualified e.protocol (parse e.signature) o else [])
          (if passes filters e then counted (parse e.signature) o else 1)
          d
          (filtered parse filters e o d)
  unfolding filtered
  filtered-Step [] e o d = qualify-Step e.protocol (parse e.signature) o d
  filtered-Step (f ∷ fs) e o d =
      decide-Step (f e) (passes fs e) (qualified e.protocol (parse e.signature) o)
        (counted (parse e.signature) o) d (filtered parse fs e o d) (filtered-Step fs e o d)

  handle-Step :
      (filters : List (LogFilter Fault)) (e : RawLogEvent Fault) (o : Offer)
      (d : Dispatch Signature)
      → let u = handle parse filters e o d in
        (u.sent
          ≡ d.sent ++ (if passes filters e then qualified e.protocol (parse e.signature) o else []))
        × (accounted u
            ≡ accounted d + (if passes filters e then counted (parse e.signature) o else 1))
        × (u.received ≡ d.received + 1)
  unfolding handle
  handle-Step filters e o d =
      let s = filtered-Step filters e o (record d { received = d.received + 1 }) in
      (s.sends, s.counts, s.same)

  -- The dispatcher sends on, in order, exactly the signatures of the events that every filter
  -- accepts, whose signature parses and which find room, and counts every event as received; it
  -- accounts for every one but those that come to a closed channel.
  pub run-admitted :
      (filters : List (LogFilter Fault)) (es : List (RawLogEvent Fault × Offer))
      (d : Dispatch Signature)
      → let u = run parse filters es d in
        (u.sent ≡ d.sent ++ admitted filters es)
        × (accounted u ≡ accounted d + counted_in filters es)
        × (u.received ≡ d.received + length es)
  unfolding run
  run-admitted filters [] d = (sym (append-nil d.sent), omega arith, omega arith)
  run-admitted filters ((e, o) ∷ es) d =
      let (sent, count, received) = handle-Step filters e o d in
      let (sent', count', received') = run-admitted filters es (handle parse filters e o d) in
      (
        sent'
            ∙ ap (λ l. l ++ admitted filters es) sent
            ∙ append_assoc d.sent _ (admitted filters es),
        omega (arith, count, count'),
        omega (arith, received, received'),
      )
