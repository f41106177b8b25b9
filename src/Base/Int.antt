-- ===== src/Base/Int.antt =====
-- Go's `int` (64 bits, signed) as an integer over the native numbers, with its wrap-around.
use Prim.Native.Nat.{ℕ, ◌+◌, ◌-◌, ◌^◌}
use mathlib.Core.Bool.{Bool, false}
use mirror_agent.Base.Tests.{ltb, if◌then◌else◌}

-- `negsuc n` is -(n + 1).
pub data ℤ : Type 0 where
  pos : ℕ → ℤ
  negsuc : ℕ → ℤ

abbrev pub int_limit : ℕ
int_limit = 2 ^ 63

-- A sum a + v of a length and an int, as two's complement keeps it: past 2^63 - 1 it is that sum
-- less 2^64. (A length is below 2^63, so the sum passes the limit once at most.)
unfoldable pub add_int : ℕ → ℤ → ℤ
add_int a (pos n) = if ltb (a + n) int_limit then pos (a + n) else negsuc (2 ^ 64 - (a + n) - 1)
add_int a (negsuc n) = if ltb n a then pos (a - (n + 1)) else negsuc (n - a)

-- `n < v` for a length and an int.
abbrev pub lt_int : ℕ → ℤ → Bool
lt_int n (pos m) = ltb n m
lt_int n (negsuc m) = false
