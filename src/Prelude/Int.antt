-- ===== src/Prelude/Int.antt =====
-- Signed integers (i32 exit codes): `negsuc n` is -(n + 1).
use Prim.Native.Nat.{ℕ}

pub data ℤ : Type 0 where
  pos : ℕ → ℤ
  negsuc : ℕ → ℤ
