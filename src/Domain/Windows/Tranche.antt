-- ===== src/Domain/Windows/Tranche.antt =====
-- crates/core/src/domain/analytic/window.rs: a period through the last tranche written.
use yog_sothoth.Prelude.{◌-◌, Bool, Option, some, leb}
use yog_sothoth.Prelude.Map.{get_or}
use yog_sothoth.Domain.Time.{Instant}
use yog_sothoth.Domain.Windows.{
  Window, hour, WrittenTranches, TranchePeriod, duration, offset_duration,
}

unfoldable pub of : Instant → Window → Option Instant → TranchePeriod
of as_of window measured_since = record {
  from = as_of - duration window;
  as_of = as_of;
  covered_since = get_or as_of measured_since;
}

abbrev pub is_covered : TranchePeriod → Bool
is_covered p = leb p.covered_since p.from

-- The last hour through the last tranche written, moved back.
unfoldable pub hour_through : WrittenTranches → Option Window → TranchePeriod
unfolding of
hour_through tranches offset =
    of (tranches.through - offset_duration offset) hour (some tranches.first)
