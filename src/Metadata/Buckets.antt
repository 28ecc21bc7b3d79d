-- ===== src/Metadata/Buckets.antt =====
-- Size classes.
use sarc.Prelude.{ℕ, ◌+◌, ◌*◌}
use sarc.Prelude.{◌≡◌}
use sarc.Prelude.{arith}
use sarc.Prelude.{ltb, if◌then◌else◌}
use sarc.Metadata.{bucketize_size, bucket_number}

-- 1 for a size above the limit
abbrev pub above : ℕ → ℕ → ℕ
above limit n = if ltb limit n then 1 else 0

-- The number stored for a size is how many of the limits 1 KiB, 10 KiB, 100 KiB and 1 MiB the
-- size is above.
pub bucket_number-bucketize_size :
    (n : ℕ)
    → bucket_number (bucketize_size n)
      ≡ above 1024 n + above (10 * 1024) n + above (100 * 1024) n + above (1024 * 1024) n
unfolding bucketize_size bucket_number
bucket_number-bucketize_size n = ground arith
