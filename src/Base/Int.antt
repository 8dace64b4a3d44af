-- ===== src/Base/Int.antt =====
-- Signed integers over the native numbers, under the library's names.
use Prim.Native.Nat.{ℕ, ◌+◌, ◌-◌, ◌%◌, ◌<◌}
use mathlib.Core.Path.{◌≡◌}
use native.Mathlib.Omega.{arith}
use zigbee_go_home.Base.Tests.{ltb, if◌then◌else◌}

-- `negsuc n` is -(n + 1).
pub data ℤ : Type 0 where
  pos : ℕ → ℤ
  negsuc : ℕ → ℤ

-- The integer that a w-bit pattern stands for in two's complement: a Go conversion to int8, int16,
-- int32 or int64. `half` is 2 ^ (w - 1).
abbrev pub signed : ℕ → ℕ → ℤ
signed half pattern = if ltb pattern half then pos pattern else negsuc (half + half - pattern - 1)

-- The pattern of an integer at `modulus` = 2 ^ w: a Go conversion to an unsigned type.
abbrev pub pattern_of : ℕ → ℤ → ℕ
pattern_of modulus (pos n) = n % modulus
pattern_of modulus (negsuc n) = modulus - 1 - n % modulus

pub pattern_of-signed :
    (half pattern : ℕ)
    → 0 < half
    → pattern < half + half
    → pattern_of (half + half) (signed half pattern) ≡ pattern
pattern_of-signed half pattern h k = grind arith
