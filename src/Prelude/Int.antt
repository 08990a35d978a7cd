-- ===== src/Prelude/Int.antt =====
-- Signed integers over the native numbers; sums go through the two parts of an integer.
use Prim.Native.Nat.{ℕ, suc, ◌-◌}
use mathlib.Core.Bool.{Bool}
use openmk.Prelude.Tests.{leb, ltb, if◌then◌else◌}

-- `negsuc n` is -(n + 1).
pub data ℤ : Type 0 where
  pos : ℕ → ℤ
  negsuc : ℕ → ℤ

abbrev pub pos_part : ℤ → ℕ
pos_part (pos n) = n
pos_part (negsuc n) = 0

abbrev pub neg_part : ℤ → ℕ
neg_part (pos n) = 0
neg_part (negsuc n) = suc n

-- a - b, as an integer.
abbrev pub sub_ℕ : ℕ → ℕ → ℤ
sub_ℕ a b = if leb b a then pos (a - b) else negsuc (b - a - 1)

-- `i16::unsigned_abs`
abbrev pub unsigned_abs : ℤ → ℕ
unsigned_abs (pos n) = n
unsigned_abs (negsuc n) = suc n

-- `delta > 0`
abbrev pub is_positive : ℤ → Bool
is_positive z = ltb 0 (pos_part z)

-- `delta != 0`
abbrev pub is_nonzero : ℤ → Bool
is_nonzero z = ltb 0 (unsigned_abs z)
