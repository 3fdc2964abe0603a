-- ===== src/Domain/Verdicts.antt =====
-- crates/core/src/domain/freshness_status/model.rs and materialization_backlog/model.rs: how late what was
-- indexed or materialised is.
use Prim.Native.String.{String}
use yog_sothoth.Prelude.{ℕ, ◌-◌, Option, none, some, leb, ltb, if◌then◌else◌}
use yog_sothoth.Domain.Time
use yog_sothoth.Domain.Time.{Instant}

abbrev live_threshold : ℕ
live_threshold = Time.of_minutes 2

abbrev stale_threshold : ℕ
stale_threshold = Time.of_minutes 15

pub data FreshnessStatus : Type 0 where
  live : FreshnessStatus
  delayed : FreshnessStatus
  stale : FreshnessStatus

-- An age below zero is that of an event ahead of the clock: below both thresholds, as zero is.
unfoldable pub from_last_event : Option Instant → Instant → FreshnessStatus
from_last_event none now = stale
from_last_event (some last) now =
    if leb (now - last) live_threshold
    then live
    else if leb (now - last) stale_threshold
    then delayed
    else stale

freshness_as_str : FreshnessStatus → String
freshness_as_str live = "live"
freshness_as_str delayed = "delayed"
freshness_as_str stale = "stale"

pub record MaterializationBacklog : Type 0 where
  pub aggregate : String
  pub watermark : Option Instant
  pub oldest_pending_at : Option Instant

abbrev pub waited : Option Instant → Instant → Option ℕ
waited none now = none
waited (some oldest) now = some (now - oldest)

-- The difference of numbers is `max(zero)`.
unfoldable pub pending_for : MaterializationBacklog → Instant → Option ℕ
pending_for b now = waited b.oldest_pending_at now

abbrev pub past : ℕ → Option ℕ → Option ℕ
past max_wait none = none
past max_wait (some wait) = if ltb max_wait wait then some wait else none

unfoldable pub late_by : MaterializationBacklog → Instant → ℕ → Option ℕ
unfolding pending_for
late_by b now max_wait = past max_wait (pending_for b now)
