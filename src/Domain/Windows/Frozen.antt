-- ===== src/Domain/Windows/Frozen.antt =====
-- crates/core/src/domain/analytic/window.rs: a period of frozen hours.
use yog_sothoth.Prelude.{◌+◌, ◌-◌, Bool, Option, leb}
use yog_sothoth.Domain.Time
use yog_sothoth.Domain.Time.{Instant}
use yog_sothoth.Domain.Windows.{Window, FrozenHours, FrozenPeriod, duration, offset_duration}

unfoldable pub of : FrozenHours → Window → Option Window → FrozenPeriod
of frozen window offset =
    let as_of = frozen.last_frozen + Time.of_hours 1 - offset_duration offset in
    record { from = as_of - duration window; as_of = as_of; covered_since = frozen.first }

abbrev pub is_covered : FrozenPeriod → Bool
is_covered p = leb p.covered_since p.from

unfoldable pub last_hour : FrozenPeriod → Instant
last_hour p = p.as_of - Time.of_hours 1
