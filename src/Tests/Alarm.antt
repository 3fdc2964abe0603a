-- ===== src/Tests/Alarm.antt =====
-- The alarm of crates/signals/src/application/workers/materialization_alarm.rs on small inputs.
use Prim.Native.String.{String}
use yog_sothoth.Prelude.{◌≡◌, ◌≢◌, ◌↔◌, refl, true, Option, none, some, List, [], ◌∷◌, All}
use yog_sothoth.Domain.Protocols.{ok}
use yog_sothoth.Domain.Time.{Instant, of_hours, of_minutes}
use yog_sothoth.Domain.Verdicts.{MaterializationBacklog, pending_for, late_by}
use yog_sothoth.Signals.Alarm.{
  Verdict, on_time, late, judge, check, reason, answered, success, run, record_pending,
}
use yog_sothoth.Signals.Alarm.OnTime.{IsOnTime, check_iff}
use yog_sothoth.Signals.Alarm.Spoken.{Changes, last_state, run-Changes}

abbrev text : Instant → String
text at = "an instant"

abbrev waits : String → Option Instant → MaterializationBacklog
waits name oldest = record { aggregate = name; watermark = none; oldest_pending_at = oldest }

abbrev backlogs : List MaterializationBacklog
backlogs = waits "swaps_hourly" (some (of_hours 10)) ∷ waits "swaps_daily" none ∷ []

abbrev is_late : Verdict
is_late = judge backlogs (of_hours 16) (of_hours 4)

reason_of_late :
    reason text (
      late
        (record { name = "swaps_hourly"; pending_for = of_hours 6; watermark = none } ∷ [])
        (of_minutes 245))
    ≡ "late (limit 4h05m): swaps_hourly pending for 6h00m, never materialised"
unfolding reason
reason_of_late = refl

gauges : record_pending backlogs (of_hours 16) ≡ ("swaps_hourly", 21600) ∷ ("swaps_daily", 0) ∷ []
unfolding record_pending pending_for
gauges = refl

check_iff_example :
    ((check text true (of_hours 4) (of_hours 12) (answered (ok backlogs))).1 ≡ some success) ↔ (
      (bs : List MaterializationBacklog) × (answered (ok backlogs) ≡ answered (ok bs))
      × (bs ≢ [])
      × All (λ b. IsOnTime (of_hours 12) (of_hours 4) b.oldest_pending_at) bs)
check_iff_example = check_iff text (of_hours 4) (of_hours 12) (answered (ok backlogs))

-- Two equal failures are spoken of once.
abbrev verdicts : List Verdict
verdicts = is_late ∷ judge backlogs (of_hours 18) (of_hours 4) ∷ on_time ∷ []

run_speaks : run none verdicts ≡ is_late ∷ on_time ∷ []
unfolding run judge late_by
run_speaks = refl

run-Changes_example :
    Changes none (run none verdicts)
    × (last_state none (run none verdicts) ≡ last_state none verdicts)
run-Changes_example = run-Changes none verdicts
