-- ===== src/Signals/Detectors.antt =====
-- crates/signals/src/application/detectors: what the three detectors share, the counters of metrics.rs
-- and how a signal is built. The numbers of the rust_decimal crate are a parameter.
use Prim.Native.String.{String}
use yog_sothoth.Prelude.{
  ℕ, ◌+◌, ◌≡◌, Bool, true, false, Option, none, some, List, [], ◌∷◌, length, if◌then◌else◌,
}
use yog_sothoth.Domain.Protocols.{Protocol, Result, ok, err}
use yog_sothoth.Domain.Time.{Instant}
use yog_sothoth.Signals.Engine.{Severity, warning, critical, Signal}
pub mod Drain
pub mod Imbalance
pub mod Deviation
pub mod Told
pub mod Drained
pub mod Fresh

-- The operators `+`, `-` and `/` panic where the checked ones answer `None`; `>=` is `lt` negated.
pub record Decimals : Type 1 where
  pub Decimal : Type 0
  pub zero : Decimal
  pub checked_add : Decimal → Decimal → Option Decimal
  pub checked_sub : Decimal → Decimal → Option Decimal
  pub checked_div : Decimal → Decimal → Option Decimal
  pub abs : Decimal → Decimal
  pub lt : Decimal → Decimal → Bool
  pub round_dp : ℕ → Decimal → Decimal
  pub round_sf : ℕ → Decimal → Option Decimal
  pub normalize : Decimal → Decimal
  pub print : Decimal → String

pub data SkipReason : Type 0 where
  unpriced no_tvl stale no_decoder undecodable : SkipReason

unfoldable pub skip_label : SkipReason → String
skip_label unpriced = "unpriced"
skip_label no_tvl = "no_tvl"
skip_label stale = "stale"
skip_label no_decoder = "no_decoder"
skip_label undecodable = "undecodable"

module _ (n : Decimals) where
  open n use {Decimal, lt}

  -- The fields of a signal that the engine only passes on.
  pub record Evidence : Type 0 where
    pub detector : String
    pub protocol : Protocol
    pub value : Decimal
    pub threshold : Option Decimal
    pub message : Option String

  -- What one pool comes to: a `continue`, one that is counted, a signal, or a panic.
  pub data Look : Type 0 where
    quiet : Look
    skip : SkipReason → Look
    raise : Signal Evidence → Look
    panic : Look

  -- What a tick of a detector leaves: the counters and the signals, in the order of the pools.
  pub record Report : Type 0 where
    pub considered : ℕ
    pub skipped : List SkipReason
    pub signals : List (Signal Evidence)

  abbrev pub or_panic : Option Decimal → (Decimal → Look) → Look
  or_panic none k = panic
  or_panic (some d) k = k d

  abbrev pub or_skip : SkipReason → Option Decimal → (Decimal → Look) → Look
  or_skip reason none k = skip reason
  or_skip reason (some d) k = k d

  -- `let (Some(a), Some(b)) = … else`.
  abbrev pub both_or_skip :
      SkipReason → Option Decimal → Option Decimal → (Decimal → Decimal → Look) → Look
  both_or_skip reason none b k = skip reason
  both_or_skip reason (some a) none k = skip reason
  both_or_skip reason (some a) (some b) k = k a b

  -- The severity and the threshold that justifies it.
  unfoldable pub grade : Decimal → Decimal → Decimal → Severity × Decimal
  grade threshold escalation magnitude =
      if lt magnitude escalation then (warning, threshold) else (critical, escalation)

  -- The end of a pool: nothing below the threshold, a signal from it on.
  unfoldable pub emit :
      String → Protocol → ℕ → Instant → Decimal → Decimal → Decimal → Decimal → String → Look
  unfolding grade
  emit name protocol pool now threshold escalation magnitude value message =
      if lt magnitude threshold
      then quiet
      else raise (record {
        pool_address = pool;
        severity = (grade threshold escalation magnitude).0;
        triggered_at = now;
        rest = record {
          detector = name;
          protocol = protocol;
          value = value;
          threshold = some (grade threshold escalation magnitude).1;
          message = some message;
        };
      })

  abbrev pub add_look : Look → Report → Option Report
  add_look quiet r = some r
  add_look (skip reason) r =
      some (record { considered = r.considered; skipped = reason ∷ r.skipped; signals = r.signals })
  add_look (raise s) r =
      some (record { considered = r.considered; skipped = r.skipped; signals = s ∷ r.signals })
  add_look panic r = none

  abbrev pub then_look : Look → Option Report → Option Report
  then_look l none = none
  then_look l (some r) = add_look l r

  -- The loop over the pools, started with the number of them; none where a pool panics.
  unfoldable pub look_all : {P : Type 0} → ℕ → (P → Look) → List P → Option Report
  look_all count look [] = some (record { considered = count; skipped = []; signals = [] })
  look_all count look (p ∷ ps) = then_look (look p) (look_all count look ps)

  abbrev pub reported : {E : Type 0} → Option Report → Option (Result E Report)
  reported none = none
  reported (some r) = some (ok r)

  -- `evaluate` on what the read answers; none is a panic.
  unfoldable pub on_read :
      {E P : Type 0} → Result E (List P) → (P → Look) → Option (Result E Report)
  unfolding look_all
  on_read (err e) look = some (err e)
  on_read (ok ps) look = reported (look_all (length ps) look ps)
