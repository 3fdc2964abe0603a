-- ===== src/Domain/Windows.antt =====
-- crates/core/src/domain/analytic/window.rs: the windows a measure is read over,
-- and the periods that one read covers.
pub mod Frozen
pub mod Tranche
use Prim.Native.String.{String}
use yog_sothoth.Prelude.{ℕ, ◌+◌, ◌-◌, List, [], ◌∷◌, Option, none, some, Bool, leb}
use yog_sothoth.Prelude.Map.{get_or}
use yog_sothoth.Domain.Time
use yog_sothoth.Domain.Time.{Instant}

pub data Window : Type 0 where
  hour : Window
  day : Window
  week : Window
  month : Window

-- `Window::ALL`: those that frozen periods are written for.
unfoldable pub all : List Window
all = day ∷ week ∷ month ∷ []

unfoldable pub hours : Window → ℕ
hours hour = 1
hours day = 24
hours week = 168
hours month = 720

unfoldable pub as_str : Window → String
as_str hour = "1h"
as_str day = "24h"
as_str week = "7d"
as_str month = "30d"

unfoldable pub duration : Window → ℕ
unfolding hours
duration w = Time.of_hours (hours w)

-- `offset.map_or(TimeDelta::zero(), Window::duration)`.
abbrev pub offset_duration : Option Window → ℕ
offset_duration none = 0
offset_duration (some w) = duration w

pub record FrozenHours : Type 0 where
  pub first : Instant
  pub last_frozen : Instant

pub record WrittenTranches : Type 0 where
  pub first : Instant
  pub through : Instant

pub record FrozenPeriod : Type 0 where
  pub from : Instant
  pub as_of : Instant
  pub covered_since : Instant

pub record TranchePeriod : Type 0 where
  pub from : Instant
  pub as_of : Instant
  pub covered_since : Instant
