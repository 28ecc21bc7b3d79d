-- ===== src/Prelude/Int.antt =====
-- Signed 64-bit integers and Go's conversions between int64 and uint64.
use Prim.Native.Nat.{ℕ, ◌-◌, ◌%◌, ◌^◌, ◌<◌}
use mathlib.Core.Path.{◌≡◌}
use native.Mathlib.Omega.{arith}
use sarc.Prelude.Tests.{ltb, if◌then◌else◌}

-- `negsuc n` is -(n + 1).
pub data ℤ : Type 0 where
  pos : ℕ → ℤ
  negsuc : ℕ → ℤ

abbrev pub IsU64 : ℕ → Type 0
IsU64 n = n < 2 ^ 64

abbrev pub IsI64 : ℤ → Type 0
IsI64 (pos n) = n < 2 ^ 63
IsI64 (negsuc n) = n < 2 ^ 63

-- uint64(x)
unfoldable pub to_u64 : ℤ → ℕ
to_u64 (pos n) = n % 2 ^ 64
to_u64 (negsuc n) = 2 ^ 64 - 1 - n % 2 ^ 64

-- int64(x), also int(x) on a 64-bit machine
unfoldable pub to_i64 : ℕ → ℤ
to_i64 n = if ltb (n % 2 ^ 64) (2 ^ 63) then pos (n % 2 ^ 64) else negsuc (2 ^ 64 - 1 - n % 2 ^ 64)

pub to_i64-to_u64 : (z : ℤ) → IsI64 z → to_i64 (to_u64 z) ≡ z
unfolding to_i64 to_u64
to_i64-to_u64 (pos n) h = ground arith
to_i64-to_u64 (negsuc n) h = ground arith

pub to_u64-to_i64 : (n : ℕ) → IsU64 n → to_u64 (to_i64 n) ≡ n
unfolding to_i64 to_u64
to_u64-to_i64 n h = ground arith

pub to_i64-IsI64 : (n : ℕ) → IsI64 (to_i64 n)
unfolding to_i64
to_i64-IsI64 n = ground arith

pub to_u64-IsU64 : (z : ℤ) → IsU64 (to_u64 z)
unfolding to_u64
to_u64-IsU64 (pos n) = omega arith
to_u64-IsU64 (negsuc n) = omega arith

-- A value below 2 ^ 63 is the same number as a Go `int`.
pub to_i64-pos : (n : ℕ) → n < 2 ^ 63 → to_i64 n ≡ pos n
unfolding to_i64
to_i64-pos n h = ground arith
