-- ===== src/Runtime/Buckets.antt =====
-- A bucket is the multiple of its duration that a time lies in.
use bot_ea.Base.{ℕ, ◌+◌, ◌-◌, ◌%◌, ◌≤◌, ◌<◌, ◌≡◌, arith}
use bot_ea.Runtime.Time.{Timeframe, d1, h1, m15, m5, m1, duration, bucket_open}

-- The fields of `replace` give the same as one division by the duration.
pub bucket_open_lem : (t : ℕ) (tf : Timeframe) → bucket_open t tf ≡ t - t % duration tf
unfolding bucket_open
bucket_open_lem t d1 = omega arith
bucket_open_lem t h1 = omega arith
bucket_open_lem t m15 = omega arith
bucket_open_lem t m5 = omega arith
bucket_open_lem t m1 = omega arith

-- The bucket of a time begins at or before the time, and ends behind it.
pub bucket_open_bounds :
    (t : ℕ) (tf : Timeframe) → (bucket_open t tf ≤ t) × (t < bucket_open t tf + duration tf)
bucket_open_bounds t d1 = omega (arith, bucket_open_lem t d1)
bucket_open_bounds t h1 = omega (arith, bucket_open_lem t h1)
bucket_open_bounds t m15 = omega (arith, bucket_open_lem t m15)
bucket_open_bounds t m5 = omega (arith, bucket_open_lem t m5)
bucket_open_bounds t m1 = omega (arith, bucket_open_lem t m1)
