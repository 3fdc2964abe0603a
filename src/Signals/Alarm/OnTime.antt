-- ===== src/Signals/Alarm/OnTime.antt =====
-- The successes that the check of crates/signals/src/application/workers/materialization_alarm.rs
-- reports.
use Prim.Native.String.{String}
use yog_sothoth.Prelude.{
  ℕ, ◌-◌, ◌≤◌, ◌≡◌, ◌↔◌, ◌≢◌, refl, sym, subst, Bool-cases, inl, inr, true, Option, none, some,
  List, [], ◌∷◌, All, arith, ltb, ltb→lt, ltb_false→le,
}
use yog_sothoth.Domain.Protocols.{ok, err}
use yog_sothoth.Domain.Time.{Instant}
use yog_sothoth.Domain.Verdicts.{MaterializationBacklog, pending_for, late_by, waited, past}
use yog_sothoth.Signals.Alarm.{
  Verdict, LateAggregate, on_time, failed, late_aggregate, late_aggregates, of_late, judge, check,
  Read, answered, timed_out, success, told, verdict_of,
}

-- No row has waited longer than the limit.
abbrev pub IsOnTime : Instant → ℕ → Option Instant → Type 0
IsOnTime now max_wait none = Unit
IsOnTime now max_wait (some oldest) = now - oldest ≤ max_wait

abbrev IsEmpty : List LateAggregate → Type 0
IsEmpty [] = Unit
IsEmpty (a ∷ more) = ⊥

late_aggregate-IsEmpty :
    (b : MaterializationBacklog) (oldest : Option Instant) (now : Instant) (max_wait : ℕ)
    (rest : List LateAggregate)
    → IsEmpty (late_aggregate b (past max_wait (waited oldest now)) rest)
      ↔ (IsOnTime now max_wait oldest × IsEmpty rest)
late_aggregate-IsEmpty b none now max_wait rest = (λ h. (tt, h), λ h. h.1)
late_aggregate-IsEmpty b (some oldest) now max_wait rest =
    elim (Bool-cases (ltb max_wait (now - oldest))) [
      | inl is_late ↦ rw is_late (λ h. elim h [ ], λ h. omega (arith, h.0, ltb→lt _ _ is_late))
      | inr in_time ↦ rw in_time (λ h. (ltb_false→le _ _ in_time, h), λ h. h.1)
    ]

late_aggregates-IsEmpty :
    (bs : List MaterializationBacklog) (now : Instant) (max_wait : ℕ)
    → IsEmpty (late_aggregates bs now max_wait)
      ↔ All (λ b. IsOnTime now max_wait b.oldest_pending_at) bs
unfolding late_aggregates late_by pending_for
late_aggregates-IsEmpty [] now max_wait = (λ h. tt, λ h. tt)
late_aggregates-IsEmpty (b ∷ bs) now max_wait =
    let (to, from) =
      late_aggregate-IsEmpty b b.oldest_pending_at now max_wait (late_aggregates bs now max_wait) in
    let (to', from') = late_aggregates-IsEmpty bs now max_wait in
    (λ h. ((to h).0, to' (to h).1), λ h. from (h.0, from' h.1))

of_late_iff :
    (aggregates : List LateAggregate) (max_wait : ℕ)
    → (of_late aggregates max_wait ≡ on_time) ↔ IsEmpty aggregates
of_late_iff [] max_wait = (λ h. tt, λ h. refl)
of_late_iff (a ∷ more) max_wait = (λ h. cc, λ h. elim h [ ])

judge_iff :
    (bs : List MaterializationBacklog) (now : Instant) (max_wait : ℕ)
    → (judge bs now max_wait ≡ on_time)
      ↔ ((bs ≢ []) × All (λ b. IsOnTime now max_wait b.oldest_pending_at) bs)
unfolding judge
judge_iff [] now max_wait = (λ h. cc, λ h. elim (h.0 refl) [ ])
judge_iff (b ∷ bs) now max_wait =
    let (to, from) = of_late_iff (late_aggregates (b ∷ bs) now max_wait) max_wait in
    let (to', from') = late_aggregates-IsEmpty (b ∷ bs) now max_wait in
    (λ h. ((λ e. cc), to' (to h)), λ h. from (from' h.1))

module _ (format : Instant → String) where
  told_success : (v : Verdict) → (told format true v ≡ some success) ↔ (v ≡ on_time)
  told_success on_time = (λ h. refl, λ h. refl)
  told_success (failed f) = (λ h. cc, λ h. cc)

  -- A check with a heartbeat reports a success exactly where the read answered in time, named at
  -- least one aggregate, and no oldest pending row of one has waited for longer than the limit.
  pub check_iff :
      (max_wait : ℕ) (now : Instant) (read : Read)
      → ((check format true max_wait now read).1 ≡ some success) ↔ (
          (bs : List MaterializationBacklog) × (read ≡ answered (ok bs))
          × (bs ≢ [])
          × All (λ b. IsOnTime now max_wait b.oldest_pending_at) bs)
  unfolding check verdict_of
  check_iff max_wait now (answered (ok bs)) =
      let (to, from) = told_success (judge bs now max_wait) in
      let (to', from') = judge_iff bs now max_wait in
      (
        λ h. (bs, refl, (to' (to h)).0, (to' (to h)).1),
        λ (bs', e, some_watched, in_time).
            let same : bs ≡ bs' = cc in
            from (
              subst (λ xs. judge xs now max_wait ≡ on_time) (sym same)
                ((judge_iff bs' now max_wait).1 (some_watched, in_time))),
      )
  check_iff max_wait now (answered (err e)) = (λ h. cc, λ (bs, same, h, k). cc)
  check_iff max_wait now timed_out = (λ h. cc, λ (bs, same, h, k). cc)
