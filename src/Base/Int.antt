-- ===== src/Base/Int.antt =====
-- Signed integers, for the values of C++'s `int`.
use Prim.Native.Nat.{ℕ}
use mathlib.Core.Bool.{Bool, false}
use kingdom.Base.Tests.{◌==◌}

-- `negsuc n` is -(n + 1).
pub data ℤ : Type 0 where
  pos : ℕ → ℤ
  negsuc : ℕ → ℤ

-- Comparison with a literal that is not negative.
abbrev pub is_int : ℕ → ℤ → Bool
is_int n (pos m) = m == n
is_int n (negsuc m) = false
