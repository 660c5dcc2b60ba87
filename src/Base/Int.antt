-- ===== src/Base/Int.antt =====
-- The integers over the native numbers, for the `int` values that the modem reports.
use Prim.Native.Nat.{ℕ}

-- `negsuc n` is -(n + 1).
pub data ℤ : Type 0 where
  pos : ℕ → ℤ
  negsuc : ℕ → ℤ
