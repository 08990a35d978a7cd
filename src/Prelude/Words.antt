-- ===== src/Prelude/Words.antt =====
-- Machine words as numbers: shifts, and the byte orders of `to_be_bytes` and `from_le_bytes`.
use Prim.Native.Nat.{zero, suc, ℕ, ◌+◌, ◌*◌, ◌/◌, ◌%◌, ◌^◌, ◌<◌}
use mathlib.Core.Path.{◌≡◌}
use native.Mathlib.Nat.{pow-le-pow_right, pow-suc}
use native.Mathlib.Omega.{arith}
use mathlib.Core.List.{List, [], ◌∷◌}

-- `x >> k`
abbrev pub shr : ℕ → ℕ → ℕ
shr x k = x / 2 ^ k

-- `x << k` on a `w`-bit word
abbrev pub shl : ℕ → ℕ → ℕ → ℕ
shl w x k = x * 2 ^ k % 2 ^ w

pow-lt-word : (i : ℕ) → i < 64 → 2 ^ i < 2 ^ 64
pow-lt-word i h =
    omega (arith, pow-le-pow_right {n = 2} (omega arith) {i = i} {j = 63} (omega arith))

-- A 64-bit word with one digit set.
pub shl-one : (i : ℕ) → i < 64 → shl 64 1 i ≡ 2 ^ i
shl-one i h = omega (arith, pow-lt-word i h)

-- `x as u8` and `x as u16`
abbrev pub as_u8 : ℕ → ℕ
as_u8 x = x % 2 ^ 8

abbrev pub as_u16 : ℕ → ℕ
as_u16 x = x % 2 ^ 16

abbrev pub as_u32 : ℕ → ℕ
as_u32 x = x % 2 ^ 32

-- `u16::to_be_bytes`
abbrev pub to_be_bytes : ℕ → List ℕ
to_be_bytes w = (w / 256 % 256) ∷ (w % 256) ∷ []

-- `from_le_bytes`
abbrev pub from_le_bytes : List ℕ → ℕ
from_le_bytes [] = 0
from_le_bytes (b ∷ bs) = b + 256 * from_le_bytes bs

-- `n` bytes, the lowest first.
abbrev pub le_bytes : ℕ → ℕ → List ℕ
le_bytes zero v = []
le_bytes (suc n) v = (v % 256) ∷ le_bytes n (v / 256)

pub from_le_bytes-le_bytes : (n v : ℕ) → v < 256 ^ n → from_le_bytes (le_bytes n v) ≡ v
from_le_bytes-le_bytes zero v h = omega arith
from_le_bytes-le_bytes (suc n) v h =
    let rest : from_le_bytes (le_bytes n (v / 256)) ≡ v / 256 =
      from_le_bytes-le_bytes n (v / 256) (omega (arith, pow-suc 256 n)) in
    omega arith
