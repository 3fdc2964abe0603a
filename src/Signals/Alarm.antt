-- ===== src/Signals/Alarm.antt =====
-- crates/signals/src/application/workers/materialization_alarm.rs with its verdict.rs and failure.rs:
-- what a check of the backlogs finds, what it tells the heartbeat, and when the log speaks. The text of
-- an instant is chrono's, a parameter.
use Prim.Native.String.{String, ◌++◌ as concat, slice}
use text.Mathlib.Text.{◌==◌ as str_eq}
use yog_sothoth.Prelude.{
  ℕ, zero, suc, ◌+◌, ◌-◌, ◌/◌, ◌%◌, Bool, true, false, ◌&&◌, not, Option, none, some, List, [], ◌∷◌,
  map, ltb, if◌then◌else◌,
}
use yog_sothoth.Domain.Protocols.{Result, ok, err}
use yog_sothoth.Domain.Time.{Instant, minute}
use yog_sothoth.Domain.Verdicts.{MaterializationBacklog, pending_for, late_by}
pub mod OnTime
pub mod Spoken

-- In seconds.
abbrev statement_timeout : ℕ
statement_timeout = 60

abbrev read_timeout : ℕ
read_timeout = statement_timeout + 30

pub record LateAggregate : Type 0 where
  pub name : String
  pub pending_for : ℕ
  pub watermark : Option Instant

pub data Failure : Type 0 where
  late : List LateAggregate → ℕ → Failure
  unreadable : String → Failure
  nothing_reported : Failure

pub data Verdict : Type 0 where
  on_time : Verdict
  failed : Failure → Verdict

abbrev pub late_aggregate :
    MaterializationBacklog → Option ℕ → List LateAggregate → List LateAggregate
late_aggregate b none rest = rest
late_aggregate b (some wait) rest =
    record { name = b.aggregate; pending_for = wait; watermark = b.watermark } ∷ rest

-- The `filter_map`.
unfoldable pub late_aggregates : List MaterializationBacklog → Instant → ℕ → List LateAggregate
late_aggregates [] now max_wait = []
late_aggregates (b ∷ bs) now max_wait =
    late_aggregate b (late_by b now max_wait) (late_aggregates bs now max_wait)

abbrev pub of_late : List LateAggregate → ℕ → Verdict
of_late [] max_wait = on_time
of_late (a ∷ more) max_wait = failed (late (a ∷ more) max_wait)

unfoldable pub judge : List MaterializationBacklog → Instant → ℕ → Verdict
unfolding late_aggregates
judge [] now max_wait = failed nothing_reported
judge (b ∷ bs) now max_wait = of_late (late_aggregates (b ∷ bs) now max_wait) max_wait

unfoldable pub label : Verdict → String
label on_time = "on_time"
label (failed (late aggregates limit)) = "late"
label (failed (unreadable e)) = "unreadable"
label (failed nothing_reported) = "nothing_reported"

unfoldable pub late_names : Verdict → List String
late_names on_time = []
late_names (failed (late aggregates limit)) = map (λ a. a.name) aggregates
late_names (failed (unreadable e)) = []
late_names (failed nothing_reported) = []

unfoldable pub state : Verdict → String × List String
unfolding label late_names
state v = (label v, late_names v)

-- `{}` of a number of at most 64 bits, which has at most 20 digits.
digit : ℕ → String
digit d = slice "0123456789" d (d + 1)

number_loop : ℕ → ℕ → String
unfolding digit
number_loop zero n = ""
number_loop (suc fuel) n =
    let front = number_loop fuel (n / 10) in
    if ltb n 10 then digit n else concat front (digit (n % 10))

number : ℕ → String
unfolding number_loop
number n = number_loop 20 n

unfoldable pub hours_minutes : ℕ → String
unfolding number
hours_minutes duration =
    let minutes = duration / minute in
    concat (number (minutes / 60))
      (concat (if ltb (minutes % 60) 10 then "h0" else "h") (concat (number (minutes % 60)) "m"))

join : List String → String
join [] = ""
join (x ∷ []) = x
join (x ∷ y ∷ ys) = concat x (concat "; " (join (y ∷ ys)))

-- What the heartbeat is told.
pub data Report : Type 0 where
  success : Report
  failure : String → Report

-- What the read comes to; the error is its text.
pub data Read : Type 0 where
  answered : Result String (List MaterializationBacklog) → Read
  timed_out : Read

unfoldable pub verdict_of : ℕ → Instant → Read → Verdict
unfolding number
verdict_of max_wait now (answered (ok backlogs)) = judge backlogs now max_wait
verdict_of max_wait now (answered (err e)) = failed (unreadable e)
verdict_of max_wait now timed_out =
    failed (unreadable (concat "no answer within " (concat (number read_timeout) " s")))

module _ (format : Instant → String) where
  abbrev materialised : Option Instant → String
  materialised none = "never materialised"
  materialised (some watermark) = concat "materialised up to " (format watermark)

  unfoldable pub describe : LateAggregate → String
  unfolding hours_minutes
  describe a = concat a.name (
      concat " pending for "
        (concat (hours_minutes a.pending_for) (concat ", " (materialised a.watermark))))

  unfoldable pub reason : Failure → String
  unfolding describe join
  reason (late aggregates limit) =
      concat "late (limit "
        (concat (hours_minutes limit) (concat "): " (join (map describe aggregates))))
  reason (unreadable e) = concat "unreadable: " e
  reason nothing_reported = "nothing reported: no continuous aggregate found"

  abbrev pub report_of : Verdict → Report
  report_of on_time = success
  report_of (failed f) = failure (reason f)

  abbrev pub told : Bool → Verdict → Option Report
  told false v = none
  told true v = some (report_of v)

  -- The verdict, and what a heartbeat that is configured is told.
  unfoldable pub check : Bool → ℕ → Instant → Read → Verdict × Option Report
  check has_heartbeat max_wait now read =
      (verdict_of max_wait now read, told has_heartbeat (verdict_of max_wait now read))

-- The seconds of each aggregate's gauge.
abbrev seconds : Option ℕ → ℕ
seconds none = 0
seconds (some wait) = wait / 1000000000

unfoldable pub record_pending : List MaterializationBacklog → Instant → List (String × ℕ)
record_pending [] now = []
record_pending (b ∷ bs) now = (b.aggregate, seconds (pending_for b now)) ∷ record_pending bs now

abbrev pub names_eq : List String → List String → Bool
names_eq [] [] = true
names_eq [] (y ∷ ys) = false
names_eq (x ∷ xs) [] = false
names_eq (x ∷ xs) (y ∷ ys) = str_eq x y && names_eq xs ys

abbrev pub state_eq : String × List String → String × List String → Bool
state_eq s t = str_eq s.0 t.0 && names_eq s.1 t.1

-- Whether the log speaks of a verdict.
unfoldable pub log_change : Option Verdict → Verdict → Bool
unfolding state
log_change none v = true
log_change (some previous) v = not (state_eq (state previous) (state v))

-- The checks until the stop, and what the log spoke of.
unfoldable pub run : Option Verdict → List Verdict → List Verdict
unfolding log_change
run previous [] = []
run previous (v ∷ vs) =
    let rest = run (some v) vs in if log_change previous v then v ∷ rest else rest
