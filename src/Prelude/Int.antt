-- ===== src/Prelude/Int.antt =====
-- Signed integers over the native numbers: return codes and `long` values.
use Prim.Native.Nat.{ℕ}

-- `negsuc n` is -(n + 1).
pub data ℤ : Type 0 where
  pos : ℕ → ℤ
  negsuc : ℕ → ℤ

-- The return code -1.
abbrev pub minus_one : ℤ
minus_one = negsuc 0
