-- ===== src/Prelude/Words.antt =====
-- The C `int` as an unbounded signed integer: `negsuc n` is -(n + 1).
use Prim.Native.Nat.{ℕ}

pub data ℤ : Type 0 where
  pos : ℕ → ℤ
  negsuc : ℕ → ℤ
