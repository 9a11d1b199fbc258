-- ===== src/Runtime/Time.antt =====
-- The timeframes and buckets of gold_engine_core/reference_runtime.py. A time counts microseconds from
-- the start of the year 1, in one zone for all of them.
use bot_ea.Base.{ℕ, ◌+◌, ◌-◌, ◌*◌, ◌/◌, ◌%◌, Bool, true, false, List, [], ◌∷◌}

-- The timeframes of the bar lane; W1, which its tables do not have, is left out.
pub data Timeframe : Type 0 where
  d1 h1 m15 m5 m1 : Timeframe

-- `_BAR_TIMEFRAMES`
abbrev pub bar_timeframes : List Timeframe
bar_timeframes = d1 ∷ h1 ∷ m15 ∷ m5 ∷ m1 ∷ []

abbrev pub minute : ℕ
minute = 60000000

abbrev pub hour : ℕ
hour = 3600000000

abbrev pub day : ℕ
day = 86400000000

-- `_DURATIONS`
abbrev pub duration : Timeframe → ℕ
duration d1 = day
duration h1 = hour
duration m15 = 15 * minute
duration m5 = 5 * minute
duration m1 = minute

-- The hour that a time lies in, and its `minute` attribute.
abbrev pub hour_start : ℕ → ℕ
hour_start t = t - t % hour

abbrev pub minute_of : ℕ → ℕ
minute_of t = t % hour / minute

-- `value.replace(minute=value.minute - value.minute % minutes, second=0, microsecond=0)`
abbrev pub at_minutes : ℕ → ℕ → ℕ
at_minutes minutes t = hour_start t + (minute_of t - minute_of t % minutes) * minute

-- `_bucket_open`
unfoldable pub bucket_open : ℕ → Timeframe → ℕ
bucket_open t d1 = t - t % day
bucket_open t h1 = hour_start t
bucket_open t m15 = at_minutes 15 t
bucket_open t m5 = at_minutes 5 t
bucket_open t m1 = at_minutes 1 t

abbrev pub same_frame : Timeframe → Timeframe → Bool
same_frame d1 d1 = true
same_frame h1 h1 = true
same_frame m15 m15 = true
same_frame m5 m5 = true
same_frame m1 m1 = true
same_frame _ _ = false
