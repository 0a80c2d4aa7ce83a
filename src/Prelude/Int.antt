-- ===== src/Prelude/Int.antt =====
-- Signed numbers, as the program's `i32` and `i64` are read.
use Prim.Native.Nat.{ℕ}

-- `negsuc n` stands for -(n + 1).
pub data ℤ : Type 0 where
  pos : ℕ → ℤ
  negsuc : ℕ → ℤ
