-- ===== src/Prelude/Int.antt =====
-- Signed integers over the native numbers, and the bit pattern of a 64-bit int.
use Prim.Native.Nat.{ℕ, ◌-◌, ◌%◌}

-- `negsuc n` is -(n + 1).
pub data ℤ : Type 0 where
  pos : ℕ → ℤ
  negsuc : ℕ → ℤ

-- Two's complement in 64 bits.
abbrev pub word64 : ℤ → ℕ
word64 (pos n) = n % 0x10000000000000000
word64 (negsuc n) = (0x10000000000000000 - 1 - n % 0x10000000000000000) % 0x10000000000000000
