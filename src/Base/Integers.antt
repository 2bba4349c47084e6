-- ===== src/Base/Integers.antt =====
-- Integers over the native numbers: Go's int where it may be negative, and time.Duration.
use Prim.Native.Nat.{ℕ}

-- `negsuc n` is -(n + 1).
pub data ℤ : Type 0 where
  pos : ℕ → ℤ
  negsuc : ℕ → ℤ
