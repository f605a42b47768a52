-- ===== src/Common/Int.antt =====
-- The values of `int` that the code lets fall below zero for a moment: `negsuc n` is -(n + 1).
use Prim.Native.Nat.{ℕ, ◌-◌}
use u.Common.Tests.{ltb, leb, if◌then◌else◌}

pub data ℤ : Type 0 where
  pos : ℕ → ℤ
  negsuc : ℕ → ℤ

-- a - b, as an integer.
abbrev pub sub_ℕ : ℕ → ℕ → ℤ
sub_ℕ a b = if leb b a then pos (a - b) else negsuc (b - a - 1)

-- `if (v < lo) v = lo;`, for a bound that is not negative
abbrev pub at_least : ℤ → ℕ → ℕ
at_least (pos n) lo = if ltb n lo then lo else n
at_least (negsuc n) lo = lo

-- `if (v > hi) v = hi;`
abbrev pub at_most : ℕ → ℕ → ℕ
at_most v hi = if ltb hi v then hi else v
