-- ===== src/Api/Periods.antt =====
-- crates/api/src/application/services/period.rs: what every read of a produced resource shares. What the
-- repository answers is an argument.
pub mod Openings
pub mod Series
use yog_sothoth.Prelude.{
  ℕ, ◌+◌, ◌-◌, ◌*◌, ◌/◌, ◌≡◌, refl, Bool, true, false, ◌&&◌, not, Option, none, some, leb, ltb,
  ◌==◌, if◌then◌else◌,
}
use yog_sothoth.Domain.Protocols.{Result, ok, err}
use yog_sothoth.Domain.Time
use yog_sothoth.Domain.Time.{Instant, trunc_hour}
use yog_sothoth.Domain.Cycle.{tranche}
use yog_sothoth.Domain.Windows
use yog_sothoth.Domain.Windows.{
  Window, hour, day, week, month, duration, offset_duration, FrozenHours, WrittenTranches,
  FrozenPeriod, TranchePeriod,
}

-- The bounds that an envelope says of a period: the trait `PeriodBounds`.
pub record PeriodBounds : Type 0 where
  pub from : Instant
  pub as_of : Instant
  pub covered_since : Instant
  pub late_after : ℕ
  pub opening_since : Instant

-- `CLOSED_WINDOWS.contains`.
unfoldable pub is_closed : Window → Bool
is_closed hour = false
is_closed day = false
is_closed week = false
is_closed month = true

-- `FROZEN_LATE_AFTER` and `TRANCHE_LATE_AFTER`.
abbrev pub frozen_late_after : ℕ
frozen_late_after = Time.of_hours 2

abbrev pub tranche_late_after : ℕ
tranche_late_after = Time.of_minutes 30

pub record Availability : Type 0 where
  pub is_open : Bool
  pub opens_at : Option Instant
  pub late : Bool

abbrev pub then_some : {A : Type 0} → Bool → A → Option A
then_some true a = some a
then_some false a = none

-- A window that is read of a period, not closed for good.
abbrev pub judge : Window → ℕ → PeriodBounds → Bool → Availability
judge window offset period late =
    let end = period.as_of + offset in
    let opens_at = period.opening_since + duration window + offset in
    record {
      is_open = leb opens_at end;
      opens_at = then_some (not (leb opens_at end) && ltb period.opening_since end) opens_at;
      late = late;
    }

unfoldable pub availability : Window → Option Window → Option PeriodBounds → Instant → Availability
unfolding is_closed
availability window offset none now = record { is_open = false; opens_at = none; late = false }
availability window offset (some period) now =
    let late = ltb period.late_after (now - (period.as_of + offset_duration offset)) in
    if is_closed window
    then record { is_open = false; opens_at = none; late = late }
    else judge window (offset_duration offset) period late

pub data ReadPeriod : Type 0 where
  frozen : FrozenPeriod → ReadPeriod
  tranches : TranchePeriod → ReadPeriod

abbrev pub frozen_bounds : FrozenPeriod → PeriodBounds
frozen_bounds p = record {
  from = p.from;
  as_of = p.as_of;
  covered_since = p.covered_since;
  late_after = frozen_late_after;
  opening_since = p.covered_since;
}

abbrev pub tranche_bounds : TranchePeriod → PeriodBounds
tranche_bounds p = record {
  from = p.from;
  as_of = p.as_of;
  covered_since = p.covered_since;
  late_after = tranche_late_after;
  opening_since = p.covered_since;
}

abbrev pub read_bounds : ReadPeriod → PeriodBounds
read_bounds (frozen p) = frozen_bounds p
read_bounds (tranches p) = tranche_bounds p

-- A period that a series draws once the facts cover it.
pub record DrawnPeriod : Type 0 where
  pub period : ReadPeriod
  pub facts_since : Instant

abbrev pub drawn_bounds : DrawnPeriod → PeriodBounds
drawn_bounds d = record (read_bounds d.period) { opening_since = d.facts_since }

abbrev pub is_covered : ReadPeriod → Bool
is_covered (frozen p) = Windows.Frozen.is_covered p
is_covered (tranches p) = Windows.Tranche.is_covered p

unfoldable pub step : ReadPeriod → ℕ
step (frozen p) = Time.of_hours 1
step (tranches p) = tranche

-- The same window ended elsewhere.
unfoldable pub ending_at : ReadPeriod → Instant → ReadPeriod
ending_at (frozen p) as_of = frozen (record p { from = as_of - (p.as_of - p.from); as_of = as_of })
ending_at (tranches p) as_of =
    tranches (record p { from = as_of - (p.as_of - p.from); as_of = as_of })

-- `since.map_or(as_of, |since| since.max(covered_since))`.
abbrev pub covered_from : Instant → Instant → Option Instant → Instant
covered_from as_of covered_since none = as_of
covered_from as_of covered_since (some since) =
    if leb since covered_since then covered_since else since

unfoldable pub measured_from : FrozenPeriod → Option Instant → FrozenPeriod
measured_from p since = record p { covered_since = covered_from p.as_of p.covered_since since }

-- The first hour that starts at or after an instant.
unfoldable pub first_whole_hour : Instant → Instant
first_whole_hour at =
    let start = trunc_hour at in if start == at then at else start + Time.of_hours 1

abbrev pub map_some : {A B : Type 0} → (A → B) → Option A → Option B
map_some f none = none
map_some f (some a) = some (f a)

unfoldable pub read_measured_from : ReadPeriod → Option Instant → ReadPeriod
unfolding measured_from first_whole_hour
read_measured_from (frozen p) since = frozen (measured_from p (map_some first_whole_hour since))
read_measured_from (tranches p) since =
    tranches (record p { covered_since = covered_from p.as_of p.covered_since since })

-- What `ProtocolActivityLookup` answers.
pub record ActivityLookup (E : Type 0) : Type 0 where
  pub frozen_hours : Result E (Option FrozenHours)
  pub written_tranches : Result E (Option WrittenTranches)

abbrev pub map_found : {E A B : Type 0} → (A → B) → Result E (Option A) → Result E (Option B)
map_found f (ok found) = ok (map_some f found)
map_found f (err e) = err e

module _ {E : Type 0} (hours : ActivityLookup E) where
  unfoldable pub build_frozen_period : Window → Option Window → Result E (Option FrozenPeriod)
  build_frozen_period window offset =
      map_found (λ frozen. Windows.Frozen.of frozen window offset) hours.frozen_hours

  unfoldable pub build_read_period : Window → Option Window → Result E (Option ReadPeriod)
  unfolding build_frozen_period
  build_read_period hour offset =
      map_found (λ written. tranches (Windows.Tranche.hour_through written offset))
        hours.written_tranches
  build_read_period day offset = map_found frozen (build_frozen_period day offset)
  build_read_period week offset = map_found frozen (build_frozen_period week offset)
  build_read_period month offset = map_found frozen (build_frozen_period month offset)

  build_last_hour : Result E (Option TranchePeriod)
  build_last_hour =
      map_found (λ written. Windows.Tranche.hour_through written none) hours.written_tranches
