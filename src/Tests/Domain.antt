-- ===== src/Tests/Domain.antt =====
-- The domain types at concrete inputs.
use yog_sothoth.Prelude.{ℕ, ◌+◌, ◌*◌, ◌≡◌, ◌↔◌, refl, some, [], ◌∷◌, ◌++◌, arith}
use yog_sothoth.Domain.Protocols.{ok}
use yog_sothoth.Domain.Time.{hour}
use yog_sothoth.Domain.Cycle.{AnalyticProgress, plan, drafted, without_written, tranche}
use yog_sothoth.Domain.Cycle.Sound.{IsSound, plan-IsSound}
use yog_sothoth.Domain.Cycle.Sequence.{IsValued, recorded, plan-keeps}
use yog_sothoth.Domain.ApiKey.{Bytes, ApiKey, from_random, parse}
use yog_sothoth.Domain.ApiKey.RoundTrip.{parse-from_random}
use yog_sothoth.Domain.ApiKey.Grammar.{IsKeyText, parse_iff}

-- Hours from the first to the fourth written, the third frozen, and its tranches valued.
abbrev so_far : AnalyticProgress
so_far = record {
  first_hour = some (100 * hour);
  last_frozen = some (102 * hour);
  last_tranche = some (102 * hour + 11 * tranche);
}

abbrev next_cycle : ℕ
next_cycle = 104 * hour + 3 * tranche

plan-IsSound_example : IsSound next_cycle so_far (plan next_cycle so_far)
plan-IsSound_example = plan-IsSound next_cycle so_far (omega arith) (λ f e. ground arith)

-- The hour after the last frozen one is frozen, its tranches valued first.
freezes : (plan next_cycle so_far).freeze_through ≡ some (103 * hour)
unfolding plan drafted without_written
freezes = refl

plan-keeps_example :
    IsValued (recorded (plan next_cycle so_far) so_far)
    × ((f l : ℕ)
        → so_far.last_frozen ≡ some f
        → so_far.last_tranche ≡ some l
        → (plan next_cycle so_far).tranches_from ≡ l + tranche)
plan-keeps_example =
    plan-keeps next_cycle so_far (omega arith) (λ f e. ground arith)
      (λ f e. (102 * hour + 11 * tranche, refl, ground arith))

abbrev four : Bytes
four = 1 ∷ 2 ∷ 3 ∷ 255 ∷ []

abbrev eight : Bytes
eight = 0 ∷ 16 ∷ 32 ∷ 48 ∷ 160 ∷ 171 ∷ 254 ∷ 255 ∷ []

abbrev thirty_two : Bytes
thirty_two = eight ++ (eight ++ (eight ++ eight))

parse-from_random_example :
    parse (from_random four thirty_two).text ≡ ok (from_random four thirty_two)
parse-from_random_example = parse-from_random four thirty_two refl refl (omega arith) (omega arith)

abbrev a_text : Bytes
a_text = b'y' ∷ b'o' ∷ b'g' ∷ []

parse_iff_example :
    ((parse a_text ≡ ok (record { text = a_text })) ↔ IsKeyText a_text)
    × ((k : ApiKey) → parse a_text ≡ ok k → k.text ≡ a_text)
parse_iff_example = parse_iff a_text
