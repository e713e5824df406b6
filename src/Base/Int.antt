-- ===== src/Base/Int.antt =====
-- Python's signed integers, as a JSON number may be one.
use Prim.Native.Nat.{ℕ}

-- `negsuc n` is -(n + 1).
pub data ℤ : Type 0 where
  pos : ℕ → ℤ
  negsuc : ℕ → ℤ
