-- ===== src/Prelude/Text.antt =====
-- Texts as lists of character codes: literals, decimal numbers, `join`.
use Prim.Native.Nat.{ℕ, zero, suc, ◌+◌, ◌/◌, ◌%◌}
use Prim.Native.Char.{code}
use Prim.Native.String.{String}
use mathlib.Core.List.{List, [], ◌∷◌, ◌++◌}
use mathlib.Core.Bool.{Bool, ◌&&◌, ◌||◌}
use openmk.Prelude.Tests.{leb, ltb, ◌==◌, if◌then◌else◌}

-- The codes of a literal. `String` has its own `[]` and `∷`.
abbrev pub codes : String → List ℕ
codes String.[] = []
codes (String.◌∷◌ c s) = code c ∷ codes s

-- The last `n` digits of a number, without leading zeros, in front of `rest`.
unfoldable pub digits : ℕ → ℕ → List ℕ → List ℕ
digits zero x rest = rest
digits (suc n) x rest =
    let more = digits n (x / 10) ((48 + x % 10) ∷ rest) in
    if ltb x 10 then (48 + x % 10) ∷ rest else more

-- `{}` of a number; one of 64 bits has 20 digits at most.
unfoldable pub decimal : ℕ → List ℕ
decimal x = digits 20 x []

-- `[T]::join`
abbrev pub join : List ℕ → List (List ℕ) → List ℕ
join sep [] = []
join sep (s ∷ []) = s
join sep (s ∷ (t ∷ ts)) = s ++ (sep ++ join sep (t ∷ ts))

-- `char::is_whitespace`
abbrev pub is_whitespace : ℕ → Bool
is_whitespace c =
    (leb 9 c && leb c 13)
    || (c == 32)
    || (c == 0x85)
    || (c == 0xa0)
    || (c == 0x1680)
    || (leb 0x2000 c && leb c 0x200a)
    || (c == 0x2028)
    || (c == 0x2029)
    || (c == 0x202f)
    || (c == 0x205f)
    || (c == 0x3000)

unfoldable pub trim_start : List ℕ → List ℕ
trim_start [] = []
trim_start (c ∷ s) = if is_whitespace c then trim_start s else c ∷ s

-- `c` in front of a text whose end is trimmed.
abbrev pub cons_trimmed : ℕ → List ℕ → List ℕ
cons_trimmed c [] = if is_whitespace c then [] else c ∷ []
cons_trimmed c (d ∷ s) = c ∷ (d ∷ s)

unfoldable pub trim_end : List ℕ → List ℕ
trim_end [] = []
trim_end (c ∷ s) = cons_trimmed c (trim_end s)

unfoldable pub trim : List ℕ → List ℕ
trim s = trim_end (trim_start s)
