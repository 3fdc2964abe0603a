-- ===== src/Domain/Cycle.antt =====
-- crates/core/src/domain/analytic/model.rs: what one cycle of yog-analytic writes.
pub mod Bounds
pub mod Sound
pub mod Sequence
use yog_sothoth.Prelude.{
  ℕ, ◌+◌, ◌-◌, ◌*◌, ◌/◌, ◌≡◌, refl, Bool, true, false, Option, none, some, leb, ltb, min, max,
  if◌then◌else◌,
}
use yog_sothoth.Domain.Time.{Instant, hour, trunc_hour}

-- `FREEZE_MARGIN`: ten minutes.
abbrev pub freeze_margin : ℕ
freeze_margin = 600000000000

abbrev pub max_hours_per_cycle : ℕ
max_hours_per_cycle = 6

-- `TRANCHE`: five minutes.
abbrev pub tranche : ℕ
tranche = 300000000000

-- `MAX_HOURS_PER_CYCLE * 60 / TRANCHE_MINUTES`.
abbrev pub max_tranches_per_cycle : ℕ
max_tranches_per_cycle = max_hours_per_cycle * 60 / 5

pub record AnalyticProgress : Type 0 where
  pub first_hour : Option Instant
  pub last_frozen : Option Instant
  pub last_tranche : Option Instant

pub record CycleWrite : Type 0 where
  pub tranches_from : Instant
  pub tranches_through : Instant
  pub from : Instant
  pub through : Instant
  pub freeze_through : Option Instant
  pub tvl_hour : Option Instant
  pub at : Instant

abbrev pub hour_of : Instant → Instant
hour_of at = trunc_hour at

abbrev pub tranche_of : Instant → Instant
tranche_of at = at / 300000000000 * 300000000000

-- The latest of two instants, and the earliest, as `Ord` has them.
abbrev pub later : ℕ → ℕ → ℕ
later a b = if leb a b then b else a

abbrev pub earlier : ℕ → ℕ → ℕ
earlier a b = if leb a b then a else b

-- `Option`'s `max`: a `None` is below every `Some`.
abbrev pub later_option : Option ℕ → Option ℕ → Option ℕ
later_option none b = b
later_option (some a) none = some a
later_option (some a) (some b) = some (later a b)

-- `fold(at, max)` over an `Option`.
abbrev pub no_earlier : Option ℕ → ℕ → ℕ
no_earlier none at = at
no_earlier (some bound) at = later at bound

abbrev pub plus : ℕ → Option ℕ → Option ℕ
plus d none = none
plus d (some at) = some (at + d)

-- `filter`, by a bound from below.
abbrev pub if_from : ℕ → ℕ → Option ℕ
if_from bound at = if leb bound at then some at else none

-- The last hour of which every tranche is written.
abbrev pub complete_hour : Option ℕ → Option ℕ
complete_hour none = none
complete_hour (some last) = some (hour_of (last + tranche) - hour)

-- The freeze, no later than what the cycle rewrites and what is complete.
abbrev pub clamp_freeze : ℕ → ℕ → Option ℕ → Option ℕ → Option ℕ
clamp_freeze from through (some at) (some complete) =
    if_from from (earlier (earlier at through) complete)
clamp_freeze from through none complete = none
clamp_freeze from through (some at) none = none

-- An hour that is not frozen yet.
abbrev pub if_unfrozen : Option ℕ → Option ℕ → Option ℕ
if_unfrozen none at = at
if_unfrozen (some frozen) none = none
if_unfrozen (some frozen) (some at) = if ltb frozen at then some at else none

abbrev pub next_from : CycleWrite → AnalyticProgress → Instant
next_from c written = no_earlier (plus hour written.last_frozen) c.from

abbrev pub next_tranches_from : CycleWrite → AnalyticProgress → Instant
next_tranches_from c written =
    later (no_earlier (plus tranche written.last_tranche) c.tranches_from) (next_from c written)

-- The last tranche written once the cycle has written its own.
abbrev pub written_through : CycleWrite → AnalyticProgress → Option Instant
written_through c written =
    later_option (if_from (next_tranches_from c written) c.tranches_through) written.last_tranche

unfoldable pub without_written : CycleWrite → AnalyticProgress → CycleWrite
without_written c written = record c {
  tranches_from = next_tranches_from c written;
  from = next_from c written;
  freeze_through =
      clamp_freeze (next_from c written) c.through c.freeze_through
        (complete_hour (written_through c written));
  tvl_hour = if_unfrozen written.last_frozen c.tvl_hour;
}

-- The hour that a cycle starts from.
abbrev pub first_to_write : Option Instant → Option Instant → Instant → Instant
first_to_write (some frozen) first current = frozen + hour
first_to_write none (some first) current = first
first_to_write none none current = current

abbrev pub after_last : Option Instant → Instant → Instant
after_last none from = from
after_last (some last) from = last + tranche

-- The cycle before what is written is taken out.
unfoldable pub drafted : Instant → AnalyticProgress → CycleWrite
drafted now progress =
    let current = hour_of now in
    let from = first_to_write progress.last_frozen progress.first_hour current in
    let tranches_from = after_last progress.last_tranche from in
    record {
      tranches_from = tranches_from;
      tranches_through =
          earlier (tranche_of (now - tranche - freeze_margin))
            (tranches_from + tranche * (max_tranches_per_cycle - 1));
      from = from;
      through = earlier current (from + (max_hours_per_cycle - 1) * hour);
      freeze_through = some (hour_of (now - hour - freeze_margin));
      tvl_hour = some current;
      at = now;
    }

unfoldable pub plan : Instant → AnalyticProgress → CycleWrite
unfolding drafted without_written
plan now progress = without_written (drafted now progress) progress
