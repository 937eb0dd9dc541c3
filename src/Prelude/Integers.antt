-- ===== src/Prelude/Integers.antt =====
-- The integers that stand for a signed `int`.
use Prim.Native.Nat.{ℕ, ◌+◌, ◌-◌, ◌/◌, ◌%◌}
use mathlib.Core.Bool.{Bool}
use cc_snippets.Prelude.Tests.{leb, ◌==◌, if◌then◌else◌}

-- `negsuc n` is -(n + 1)
pub data ℤ : Type 0 where
  pos : ℕ → ℤ
  negsuc : ℕ → ℤ

abbrev pub pos_part : ℤ → ℕ
pos_part (pos n) = n
pos_part (negsuc _) = 0

abbrev pub neg_part : ℤ → ℕ
neg_part (pos _) = 0
neg_part (negsuc n) = n + 1

-- a less b
abbrev pub difference : ℕ → ℕ → ℤ
difference a b = if leb b a then pos (a - b) else negsuc (b - a - 1)

infixl 65 ◌+ℤ◌
abbrev pub ◌+ℤ◌ : ℤ → ℤ → ℤ
a +ℤ b = difference (pos_part a + pos_part b) (neg_part a + neg_part b)

-- `a / d` and `a % d == 0` of C++ for a positive `d`: the quotient is cut towards 0
abbrev pub quotient : ℤ → ℕ → ℤ
quotient a d = difference (pos_part a / d) (neg_part a / d)

abbrev pub is_multiple : ℤ → ℕ → Bool
is_multiple a d = (pos_part a + neg_part a) % d == 0
