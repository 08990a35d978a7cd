-- ===== src/Core/Display/Encoder/Area.antt =====
-- The pixels of a rectangle, and their bytes.
use openmk.Prelude.{
  ℕ, zero, suc, ◌+◌, ◌*◌, ◌%◌, ◌^◌, ◌≤◌, ◌<◌, ◌≡◌, ◌∙◌, refl, ap, sym, List, [], ◌∷◌, ◌++◌, length,
  length-append, get_or, take, drop, ok, slice_ok, arith,
}
use openmk.Proto.Types.{width, height}
use openmk.Core.Display.Encoder.{gather}

-- `n` pixels from index `i` on.
abbrev pub span : List ℕ → ℕ → ℕ → List ℕ
span pixels i zero = []
span pixels i (suc n) = get_or pixels i 0 ∷ span pixels (suc i) n

-- The pixels of a rectangle row by row.
abbrev pub area : List ℕ → ℕ → ℕ → ℕ → ℕ → List ℕ
area pixels y zero x w = []
area pixels y (suc m) x w = span pixels (y * width + x) w ++ area pixels (y + 1) m x w

length-span : (ps : List ℕ) (i n : ℕ) → length (span ps i n) ≡ n
length-span ps i zero = refl
length-span ps i (suc n) = ap suc (length-span ps (suc i) n)

span-tail : (p : ℕ) (ps : List ℕ) (i n : ℕ) → span (p ∷ ps) (suc i) n ≡ span ps i n
span-tail p ps i zero = refl
span-tail p ps i (suc n) = ap (◌∷◌ (get_or ps i 0)) (span-tail p ps (suc i) n)

take-drop : (ps : List ℕ) (i n : ℕ) → i + n ≤ length ps → take n (drop i ps) ≡ span ps i n
take-drop ps zero zero h = refl
take-drop [] zero (suc n) h = absurd (omega arith)
take-drop (p ∷ ps) zero (suc n) h =
    ap (◌∷◌ p) (take-drop ps 0 n (omega arith) ∙ sym (span-tail p ps 0 n))
take-drop [] (suc i) zero h = refl
take-drop [] (suc i) (suc n) h = absurd (omega arith)
take-drop (p ∷ ps) (suc i) n h = take-drop ps i n (omega arith) ∙ sym (span-tail p ps i n)

-- Collecting a rectangle of the screen does not panic.
pub gather-area :
    (ps : List ℕ) (y m x w : ℕ)
    → length ps ≡ width * height
    → x + w ≤ width
    → y + m ≤ height
    → gather ps y m x w ≡ ok (area ps y m x w)
unfolding gather
gather-area ps y zero x w v p q = refl
gather-area ps y (suc m) x w v p q = rw (
  slice_ok {E = ⊥} (y * width + x) w ps (omega arith),
  take-drop ps (y * width + x) w (omega arith),
  gather-area ps (y + 1) m x w v p (omega arith),
)

length-area : (ps : List ℕ) (y m x w : ℕ) → w ≤ width → length (area ps y m x w) ≤ m * width
length-area ps y zero x w p = omega arith
length-area ps y (suc m) x w p = omega (
  arith,
  length-append (span ps (y * width + x) w) (area ps (y + 1) m x w),
  length-span ps (y * width + x) w,
  length-area ps (y + 1) m x w p,
)

pub length-area_even : (ps : List ℕ) (y m x w : ℕ) → w % 4 ≡ 0 → length (area ps y m x w) % 4 ≡ 0
length-area_even ps y zero x w p = omega arith
length-area_even ps y (suc m) x w p = omega (
  arith,
  length-append (span ps (y * width + x) w) (area ps (y + 1) m x w),
  length-span ps (y * width + x) w,
  length-area_even ps (y + 1) m x w p,
)

pub length-area_lt :
    (ps : List ℕ) (y m x w : ℕ) → w ≤ width → m ≤ 16 → length (area ps y m x w) < 2 ^ 32
length-area_lt ps y m x w p q = omega (arith, length-area ps y m x w p)

pub length-area_pos : (ps : List ℕ) (y m x w : ℕ) → 0 < w → 0 < length (area ps y (suc m) x w)
length-area_pos ps y m x w p = omega (
  arith,
  length-append (span ps (y * width + x) w) (area ps (y + 1) m x w),
  length-span ps (y * width + x) w,
)
