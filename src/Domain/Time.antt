-- ===== src/Domain/Time.antt =====
-- chrono's instants and durations: numbers of nanoseconds, an instant's since 1970. Durations are taken
-- off instants far from 1970, where the difference of numbers is that of instants.
use yog_sothoth.Prelude.{ℕ, ◌*◌, ◌/◌}

abbrev pub Instant : Type 0
Instant = ℕ

abbrev pub minute : ℕ
minute = 60000000000

abbrev pub hour : ℕ
hour = 3600000000000

-- `TimeDelta::hours` and `TimeDelta::minutes`.
abbrev pub of_hours : ℕ → ℕ
of_hours n = n * hour

abbrev pub of_minutes : ℕ → ℕ
of_minutes n = n * minute

-- `duration_trunc`.
abbrev pub trunc_hour : Instant → Instant
trunc_hour at = at / 3600000000000 * 3600000000000
