-- ===== src/Domain/Cycle/Sound.antt =====
-- What a cycle of crates/core/src/domain/analytic/model.rs writes and freezes.
use yog_sothoth.Prelude.{ℕ, ◌+◌, ◌-◌, ◌*◌, ◌<◌, ◌≤◌, ◌⊎◌, ◌≡◌, refl, some, arith, inl, inr}
use yog_sothoth.Domain.Time.{Instant, hour}
use yog_sothoth.Domain.Cycle.{
  AnalyticProgress, CycleWrite, plan, drafted, without_written, tranche, freeze_margin, hour_of,
  complete_hour, no_earlier, plus, next_from, next_tranches_from, written_through,
}
use yog_sothoth.Domain.Cycle.Bounds.{
  clamp_freeze_bounds, no_earlier_bounds, later_option_cases, complete_hour_last, no_earlier_least,
  later_least, after_last_least, valued_or_after, first_to_write_pos,
}

-- The instant comes before the end of the last tranche that was valued.
abbrev pub IsValuedBefore : AnalyticProgress → Instant → Type 0
IsValuedBefore written x = (l : ℕ) × (written.last_tranche ≡ some l) × (x < l + tranche)

-- What a cycle that is written takes and freezes, beside what is written already.
pub record IsSound (now : Instant) (written : AnalyticProgress) (c : CycleWrite) : Type 0 where
  -- nothing that is frozen or valued is written again
  pub hours : (f : ℕ) → written.last_frozen ≡ some f → f + hour ≤ c.from
  pub tranches : (l : ℕ) → written.last_tranche ≡ some l → l + tranche ≤ c.tranches_from
  pub within : c.from ≤ c.tranches_from
  -- and nothing is left out between: the first tranche is at the first instant, from the hour that the
  -- cycle starts at on, that no valued tranche covers
  pub follows :
      (x : Instant)
      → c.from ≤ x
      → ((l : ℕ) → written.last_tranche ≡ some l → l + tranche ≤ x)
      → c.tranches_from ≤ x
  -- a tranche is valued once it has been closed for the margin
  pub closed : c.tranches_through + tranche + freeze_margin ≤ now
  -- one cycle writes at most so much
  pub hours_at_most : c.through ≤ c.from + 5 * hour
  pub tranches_at_most : c.tranches_through ≤ c.tranches_from + 71 * tranche
  -- an hour is frozen if the cycle rewrites it, it has been closed for the margin, and each of its
  -- instants lies in a tranche written before or in one that this cycle writes
  pub frozen :
      (h : ℕ)
      → c.freeze_through ≡ some h
      → (c.from ≤ h)
        × (h ≤ c.through)
        × (h + hour + freeze_margin ≤ now)
        × ((x : Instant)
            → h ≤ x
            → x < h + hour
            → IsValuedBefore written x
              ⊎ (c.tranches_from ≤ c.tranches_through)
                × (c.tranches_from ≤ x)
                × (x < c.tranches_through + tranche))

module _ (now : Instant) (written : AnalyticProgress) where
  drafted_within :
      ((drafted now written).through ≤ (drafted now written).from + 5 * hour)
      × ((drafted now written).tranches_through
          ≤ (drafted now written).tranches_from + 71 * tranche)
  unfolding drafted
  drafted_within = (ground arith, ground arith)

  drafted_closed :
      tranche + freeze_margin ≤ now
      → (drafted now written).tranches_through + tranche + freeze_margin ≤ now
  unfolding drafted
  drafted_closed h = ground arith

  drafted_freeze :
      (h : ℕ)
      → ((a : ℕ) → (drafted now written).freeze_through ≡ some a → h ≤ a)
      → 0 < h
      → h + hour + freeze_margin ≤ now
  unfolding drafted
  drafted_freeze h before pos =
      let asked = before (hour_of (now - hour - freeze_margin)) refl in omega (arith, asked, pos)

  drafted_follows :
      (x : Instant)
      → (drafted now written).from ≤ x
      → ((l : ℕ) → written.last_tranche ≡ some l → l + tranche ≤ x)
      → (drafted now written).tranches_from ≤ x
  unfolding drafted
  drafted_follows x low after =
      after_last_least (drafted now written).from x written.last_tranche low after

  drafted_pos :
      hour ≤ now → ((f : ℕ) → written.first_hour ≡ some f → 0 < f) → 0 < (drafted now written).from
  unfolding drafted
  drafted_pos h first =
      first_to_write_pos written.last_frozen written.first_hour (hour_of now) (ground arith) first

  -- At an instant past 1970's first hour, and where the first hour written does not start 1970, a
  -- planned cycle writes nothing again that is frozen or valued, starts its tranches no later
  -- than any instant from its first hour on that is not before the end of the last tranche
  -- valued, values a tranche only once it has been closed for the margin, writes at most six
  -- hours and seventy-two tranches, and freezes an hour only if it rewrites it, the hour has been
  -- closed for the margin, and each instant of it comes before the end of the last tranche valued
  -- before or lies in a tranche that the cycle writes.
  pub plan-IsSound :
      hour ≤ now
      → ((f : ℕ) → written.first_hour ≡ some f → 0 < f)
      → IsSound now written (plan now written)
  unfolding plan without_written
  plan-IsSound past first =
      let d : CycleWrite = drafted now written in
      let own = no_earlier_bounds hour d.from written.last_frozen in
      let valued = no_earlier_bounds tranche d.tranches_from written.last_tranche in
      let low : next_from d written ≤ next_tranches_from d written = ground arith in
      let low' : no_earlier (plus tranche written.last_tranche) d.tranches_from
          ≤ next_tranches_from d written =
        ground arith in
      let within = drafted_within in
      let follows : (x : Instant)
          → next_from d written ≤ x
          → ((l : ℕ) → written.last_tranche ≡ some l → l + tranche ≤ x)
          → next_tranches_from d written ≤ x =
        λ x low after.
          later_least (no_earlier (plus tranche written.last_tranche) d.tranches_from)
            (next_from d written) x
            (no_earlier_least tranche d.tranches_from x written.last_tranche
              (drafted_follows x (omega (arith, low, own.0)) after) after)
            low in
      let pos : 0 < next_from d written = omega (arith, drafted_pos past first, own.0) in
      record {
        hours = own.1;
        tranches = λ l e. omega (arith, valued.1 l e);
        within = low;
        follows = follows;
        closed = drafted_closed (omega arith);
        hours_at_most = omega (arith, within.0, own.0);
        tranches_at_most = omega (arith, within.1, valued.0);
        frozen = λ h e.
            let (from, through, before, complete) =
              clamp_freeze_bounds (next_from d written) d.through h d.freeze_through
                (complete_hour (written_through d written)) e in
            let (last, is_last, at) =
              complete_hour_last (written_through d written) complete.0 h complete.1 complete.2 in
            let after : 0 < h = omega (arith, pos, from) in
            let whole : h + hour ≤ last + tranche = omega (arith, at, complete.2, after) in
            let own =
              later_option_cases (next_tranches_from d written) d.tranches_through last
                written.last_tranche is_last in
            (
              from,
              through,
              drafted_freeze h before after,
              λ x since until. elim (valued_or_after x written.last_tranche) [
                | inl valued ↦ inl valued
                | inr after ↦ elim own [
                  | inl (is_own, writes) ↦ inr (
                    writes,
                    follows x (omega (arith, from, since)) after,
                    omega (arith, whole, is_own),
                  )
                  | inr old ↦ absurd (omega (arith, after last old, whole))
                ]
              ],
            );
      }
