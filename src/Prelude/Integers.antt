-- ===== src/Prelude/Integers.antt =====
-- Integers over the native numbers, for the arguments that may be negative.
use Prim.Native.Nat.{ℕ, ◌-◌, ◌/◌}
use aiocflib.Prelude.Tests.{ltb, if◌then◌else◌}

-- `negsuc n` is the integer -(n + 1).
pub data ℤ : Type 0 where
  pos : ℕ → ℤ
  negsuc : ℕ → ℤ

unfoldable pub minus : ℕ → ℕ → ℤ
minus a b = if ltb a b then negsuc (b - a - 1) else pos (a - b)

-- The integer, and 0 in place of a negative one.
unfoldable pub to_nat : ℤ → ℕ
to_nat (pos n) = n
to_nat (negsuc n) = 0

-- Python's `//` by a positive number, which rounds down.
unfoldable pub floor_div : ℤ → ℕ → ℤ
floor_div (pos n) k = pos (n / k)
floor_div (negsuc n) k = negsuc (n / k)
