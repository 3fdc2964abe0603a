-- ===== src/Domain/Announcements.antt =====
-- crates/core/src/domain/announcements/model.rs: the tags of an announcement's kind, severity and
-- status.
use Prim.Native.String.{String}
use text.Mathlib.Text.{◌==◌ as str_eq}
use yog_sothoth.Prelude.{◌≡◌, refl, if◌then◌else◌}
use yog_sothoth.Domain.Protocols.{Result, ok, err}

pub data AnnouncementKind : Type 0 where
  maintenance : AnnouncementKind
  incident : AnnouncementKind
  release : AnnouncementKind
  beta : AnnouncementKind

pub data AnnouncementSeverity : Type 0 where
  info : AnnouncementSeverity
  warning : AnnouncementSeverity
  critical : AnnouncementSeverity

-- `Upcoming`, `Open` and `Closed`.
pub data AnnouncementStatus : Type 0 where
  upcoming : AnnouncementStatus
  opened : AnnouncementStatus
  closed : AnnouncementStatus

kind_as_str : AnnouncementKind → String
kind_as_str maintenance = "maintenance"
kind_as_str incident = "incident"
kind_as_str release = "release"
kind_as_str beta = "beta"

kind_from_str : String → Result (Unit {0}) AnnouncementKind
kind_from_str s =
    if str_eq s "maintenance"
    then ok maintenance
    else if str_eq s "incident"
    then ok incident
    else if str_eq s "release"
    then ok release
    else if str_eq s "beta"
    then ok beta
    else err tt

severity_as_str : AnnouncementSeverity → String
severity_as_str info = "info"
severity_as_str warning = "warning"
severity_as_str critical = "critical"

severity_from_str : String → Result (Unit {0}) AnnouncementSeverity
severity_from_str s =
    if str_eq s "info"
    then ok info
    else if str_eq s "warning"
    then ok warning
    else if str_eq s "critical"
    then ok critical
    else err tt

unfoldable pub status_as_str : AnnouncementStatus → String
status_as_str upcoming = "upcoming"
status_as_str opened = "open"
status_as_str closed = "closed"

unfoldable pub status_from_str : String → Result (Unit {0}) AnnouncementStatus
status_from_str s =
    if str_eq s "upcoming"
    then ok upcoming
    else if str_eq s "open"
    then ok opened
    else if str_eq s "closed"
    then ok closed
    else err tt

kind_from_str-kind_as_str : (k : AnnouncementKind) → kind_from_str (kind_as_str k) ≡ ok k
unfolding kind_from_str kind_as_str
kind_from_str-kind_as_str maintenance = refl
kind_from_str-kind_as_str incident = refl
kind_from_str-kind_as_str release = refl
kind_from_str-kind_as_str beta = refl

severity_from_str-severity_as_str :
    (s : AnnouncementSeverity) → severity_from_str (severity_as_str s) ≡ ok s
unfolding severity_from_str severity_as_str
severity_from_str-severity_as_str info = refl
severity_from_str-severity_as_str warning = refl
severity_from_str-severity_as_str critical = refl

pub status_from_str-status_as_str :
    (s : AnnouncementStatus) → status_from_str (status_as_str s) ≡ ok s
unfolding status_from_str status_as_str
status_from_str-status_as_str upcoming = refl
status_from_str-status_as_str opened = refl
status_from_str-status_as_str closed = refl
