-- ===== src/Api/Periods/Openings.antt =====
-- When a window of crates/api/src/application/services/period.rs is open, and its period's coverage.
use yog_sothoth.Prelude.{
  ℕ, ◌+◌, ◌-◌, ◌≤◌, ◌≡◌, refl, not, ◌&&◌, Option, some, leb, ltb, arith, false,
}
use yog_sothoth.Domain.Protocols.{ok}
use yog_sothoth.Domain.Time
use yog_sothoth.Domain.Time.{Instant}
use yog_sothoth.Domain.Windows
use yog_sothoth.Domain.Windows.{
  Window, hour, day, week, month, duration, hours, offset_duration, FrozenHours, WrittenTranches,
  FrozenPeriod, TranchePeriod,
}
use yog_sothoth.Api.Periods.{
  Availability, ActivityLookup, ReadPeriod, availability, is_closed, is_covered, read_bounds,
  drawn_bounds, build_read_period, build_frozen_period, frozen_bounds,
}

-- Where a window's hours or tranches end, and how late they may be: the last hour is read of the
-- tranches, and the other windows of the frozen hours.
abbrev pub end_of : FrozenHours → WrittenTranches → Window → Instant
end_of frozen written hour = written.through
end_of frozen written day = frozen.last_frozen + Time.of_hours 1
end_of frozen written week = frozen.last_frozen + Time.of_hours 1
end_of frozen written month = frozen.last_frozen + Time.of_hours 1

abbrev pub patience : Window → ℕ
patience hour = Time.of_minutes 30
patience day = Time.of_hours 2
patience week = Time.of_hours 2
patience month = Time.of_hours 2

-- A repository that has both.
abbrev pub found : {E : Type 0} → FrozenHours → WrittenTranches → ActivityLookup E
found frozen written = record {
  frozen_hours = ok (some frozen);
  written_tranches = ok (some written);
}

-- What a window of a period says of itself: open by its coverage, and late by where it ends; and drawn
-- from some instant on, open by that instant instead.
abbrev pub Opens : Window → Option Window → Instant → Instant → ReadPeriod → Type 0
Opens window offset end now p =
    ((availability window offset (some (read_bounds p)) now).is_open
      ≡ (not (is_closed window) && is_covered p))
    × ((availability window offset (some (read_bounds p)) now).late
        ≡ ltb (patience window) (now - end))
    × ((facts_since : Instant)
        → (availability window offset
            (some (drawn_bounds (record { period = p; facts_since = facts_since }))) now).is_open
          ≡ (not (is_closed window)
              && leb (facts_since + duration window + offset_duration offset) end))

module _ {E : Type 0} (frozen : FrozenHours) (written : WrittenTranches) (offset : Option Window)
    (now : Instant) where
  -- Where the repository has frozen hours and written tranches, and the window with its offset
  -- goes back no further than 1970 from its end, the period read for the window is such that the
  -- window is open exactly if it is not closed for good and its period is covered, and late
  -- exactly if the end is over thirty minutes ago for the hour, which ends with the last tranche,
  -- or over two hours ago for the other windows, which end with the last frozen hour; and drawn
  -- from the facts on, it is open exactly if it is not closed for good and the facts, the window
  -- and the offset fit before the end.
  pub availability-read :
      (window : Window)
      → duration window + offset_duration offset ≤ end_of frozen written window
      → (p : ReadPeriod) × (build_read_period {E = E} (found frozen written) window offset
          ≡ ok (some p))
        × Opens window offset (end_of frozen written window) now p
  unfolding build_read_period build_frozen_period availability is_closed Windows.Frozen.of
      Windows.Tranche.hour_through Windows.Tranche.of
  availability-read hour past = (_, refl, (ground arith, ground arith, λ since. ground arith))
  availability-read day past = (_, refl, (ground arith, ground arith, λ since. ground arith))
  availability-read week past = (_, refl, (ground arith, ground arith, λ since. ground arith))
  availability-read month past = (_, refl, (refl, ground arith, λ since. refl))

-- A window of frozen hours whose period, with its offset, starts after 1970.
abbrev pub IsPast : FrozenHours → Window → Option Window → Type 0
IsPast written window offset =
    duration window + offset_duration offset ≤ written.last_frozen + Time.of_hours 1

abbrev pub availability_of : FrozenHours → Window → Option Window → Instant → Availability
availability_of written window offset now =
    availability window offset (some (frozen_bounds (Windows.Frozen.of written window offset))) now

module _ (written : FrozenHours) (window : Window) (offset : Option Window) (now : Instant)
    (opened : is_closed window ≡ false) (past : IsPast written window offset) where
  -- Where the period lies after 1970 and the window is not closed for good, a window that is
  -- given an instant to open at is closed, and at any state of the hours whose period lies after
  -- 1970 it is open exactly if they are frozen up to that instant.
  pub opens_at-open :
      (t : Instant)
      → (availability_of written window offset now).opens_at ≡ some t
      → ((availability_of written window offset now).is_open ≡ false)
        × ((last : Instant)
            → IsPast (record written { last_frozen = last }) window offset
            → (availability_of (record written { last_frozen = last }) window offset now).is_open
              ≡ leb t (last + Time.of_hours 1))
  unfolding availability Windows.Frozen.of
  opens_at-open t h =
      let instant : t ≡ written.first + duration window + offset_duration offset = ground arith in
      (ground arith, λ last later. rw opened (ground arith))
