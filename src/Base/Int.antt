-- ===== src/Base/Int.antt =====
-- The numbers of the program that may be negative, fractional or not finite.
use Prim.Native.Nat.{ℕ}

-- `negsuc n` is -(n + 1).
pub data ℤ : Type 0 where
  pos : ℕ → ℤ
  negsuc : ℕ → ℤ

-- `Math.max(0, n)`
abbrev pub clamp_zero : ℤ → ℕ
clamp_zero (pos n) = n
clamp_zero (negsuc n) = 0

-- A double: `ratio n d` is the exact value n / (d + 1); NaN and the infinities are `non_finite`.
pub data Double : Type 0 where
  non_finite : Double
  ratio : ℤ → ℕ → Double
