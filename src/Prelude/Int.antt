-- ===== src/Prelude/Int.antt =====
-- Signed integers as data: the timestamps that cross the wire.
use Prim.Native.Nat.{ℕ}

-- `negsuc n` is -(n + 1).
pub data ℤ : Type 0 where
  pos : ℕ → ℤ
  negsuc : ℕ → ℤ
