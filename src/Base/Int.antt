-- ===== src/Base/Int.antt =====
-- Go's signed int and int64, where the program tests their sign.
use Prim.Native.Nat.{ℕ, zero, suc}
use mathlib.Core.Bool.{Bool, true}
use zoa.Base.Tests.{ltb}

-- `negsuc n` is -(n + 1).
pub data ℤ : Type 0 where
  pos : ℕ → ℤ
  negsuc : ℕ → ℤ

-- max(0, z)
abbrev pub pos_part : ℤ → ℕ
pos_part (pos n) = n
pos_part (negsuc n) = 0

-- `if z <= 0 { z = default }`
abbrev pub positive_or : ℕ → ℤ → ℕ
positive_or default (pos zero) = default
positive_or default (pos (suc n)) = suc n
positive_or default (negsuc n) = default

-- z < n
abbrev pub lt_nat : ℤ → ℕ → Bool
lt_nat (pos m) n = ltb m n
lt_nat (negsuc m) n = true
