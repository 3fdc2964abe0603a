-- ===== src/Api/Periods/Series.antt =====
-- The steps of a series, crates/api/src/application/services/period.rs.
use yog_sothoth.Prelude.{ℕ, ◌%◌, ◌≡◌, ◌≢◌, refl, Bool, true, false, Option, none, some}
use yog_sothoth.Domain.Time
use yog_sothoth.Domain.Windows.{Window, hour, day, week, month, duration}

pub data SeriesInterval : Type 0 where
  five_minutes : SeriesInterval
  hourly : SeriesInterval
  six_hours : SeriesInterval
  daily : SeriesInterval

pub data BucketPeriod : Type 0 where
  hour_bucket : BucketPeriod
  six_hour_bucket : BucketPeriod
  day_bucket : BucketPeriod

of : Window → SeriesInterval
of hour = five_minutes
of day = hourly
of week = six_hours
of month = daily

fits : SeriesInterval → Window → Bool
fits five_minutes hour = true
fits five_minutes _ = false
fits six_hours week = true
fits six_hours _ = false
fits hourly hour = false
fits hourly _ = true
fits daily hour = false
fits daily _ = true

frozen_bucket : SeriesInterval → Option BucketPeriod
frozen_bucket five_minutes = none
frozen_bucket hourly = some hour_bucket
frozen_bucket six_hours = some six_hour_bucket
frozen_bucket daily = some day_bucket

width : BucketPeriod → ℕ
width hour_bucket = Time.of_hours 1
width six_hour_bucket = Time.of_hours 6
width day_bucket = Time.of_hours 24

fits-of : (w : Window) → fits (of w) w ≡ true
unfolding fits of
fits-of hour = refl
fits-of day = refl
fits-of week = refl
fits-of month = refl

-- Where an interval fits a window, its buckets cut the window into equal parts; and only the last
-- hour has none.
buckets_divide :
    (i : SeriesInterval) (w : Window) (b : BucketPeriod)
    → fits i w ≡ true
    → frozen_bucket i ≡ some b
    → (duration w % width b ≡ 0) × (w ≢ hour)
unfolding fits frozen_bucket width duration
buckets_divide five_minutes w b h e = absurd (cc)
buckets_divide hourly hour b h e = absurd (cc)
buckets_divide hourly day hour_bucket h e = (refl, λ p. cc)
buckets_divide hourly week hour_bucket h e = (refl, λ p. cc)
buckets_divide hourly month hour_bucket h e = (refl, λ p. cc)
buckets_divide hourly day six_hour_bucket h e = absurd (cc)
buckets_divide hourly week six_hour_bucket h e = absurd (cc)
buckets_divide hourly month six_hour_bucket h e = absurd (cc)
buckets_divide hourly day day_bucket h e = absurd (cc)
buckets_divide hourly week day_bucket h e = absurd (cc)
buckets_divide hourly month day_bucket h e = absurd (cc)
buckets_divide six_hours week six_hour_bucket h e = (refl, λ p. cc)
buckets_divide six_hours hour b h e = absurd (cc)
buckets_divide six_hours day b h e = absurd (cc)
buckets_divide six_hours month b h e = absurd (cc)
buckets_divide six_hours week hour_bucket h e = absurd (cc)
buckets_divide six_hours week day_bucket h e = absurd (cc)
buckets_divide daily hour b h e = absurd (cc)
buckets_divide daily day day_bucket h e = (refl, λ p. cc)
buckets_divide daily week day_bucket h e = (refl, λ p. cc)
buckets_divide daily month day_bucket h e = (refl, λ p. cc)
buckets_divide daily w hour_bucket h e = absurd (cc)
buckets_divide daily w six_hour_bucket h e = absurd (cc)
