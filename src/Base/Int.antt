-- ===== src/Base/Int.antt =====
-- Go's `int` where a program value may be negative; the sizes that occur are far below 2 ^ 63.
use Prim.Native.Nat.{ℕ}
use mathlib.Core.Bool.{Bool, false}
use semdev.Base.Tests.{◌==◌}

-- `negsuc n` is -(n + 1).
pub data ℤ : Type 0 where
  pos : ℕ → ℤ
  negsuc : ℕ → ℤ

-- `z == n` for a constant `n` of the code that is not negative.
abbrev pub is_nat : ℤ → ℕ → Bool
is_nat (pos m) n = m == n
is_nat (negsuc _) n = false
