-- ===== src/Proto/HidIn/Buttons.antt =====
-- `ControlsReport::buttons_diff`: the edges between two button masks.
use native.Mathlib.Nat.{one-le-pow}
use openmk.Prelude.{
  ℕ, zero, suc, ◌+◌, ◌*◌, ◌^◌, ◌≤◌, ◌<◌, ◌≡◌, ◌∙◌, inl, inr, Bool, not, Option, none, some, List,
  [], ◌∷◌, ltb, leb, ◌==◌, ◌&&◌, differ, if◌then◌else◌, Bool-cases, bit_and, bit_xor, bit, shl,
  shl-one, bit_and-pow, bit-bit_xor, bit-lt-two, arith,
}
use openmk.Proto.HidIn.{ControlsReport, diff_from, buttons_diff}

-- The new state of button `k`, if it has an edge.
abbrev pub find_edge : ℕ → List (ℕ × Bool) → Option Bool
find_edge k [] = none
find_edge k ((i, pressed) ∷ edges) = if i == k then some pressed else find_edge k edges

-- The indices are distinct, in ascending order, from `lo` to `hi`.
abbrev pub IsAscending : ℕ → ℕ → List (ℕ × Bool) → Type 0
IsAscending lo hi [] = Unit
IsAscending lo hi ((i, pressed) ∷ edges) = (lo ≤ i) × (i < hi) × IsAscending (i + 1) hi edges

-- The source's test of one button: `x & (1 << i) != 0`.
pub mask_test : (x i : ℕ) → i < 64 → (bit_and x (shl 64 1 i) == 0) ≡ (bit x i == 0)
mask_test x i h =
    rw (shl-one i h, bit_and-pow i x)
      (scaled (bit x i) (bit-lt-two x i) (one-le-pow i 2 (omega arith)))
  where
    scaled : (b : ℕ) → b < 2 → 1 ≤ 2 ^ i → (b * 2 ^ i == 0) ≡ (b == 0)
    scaled zero p q = ground arith
    scaled (suc zero) p q = ground arith
    scaled (suc (suc b)) p q = absurd (omega arith)

diff_from-find :
    (changed now n first k : ℕ)
    → first + n ≤ 64
    → find_edge k (diff_from changed now first n) ≡ (
        if leb first k && ltb k (first + n) && not (bit changed k == 0)
        then some (not (bit now k == 0))
        else none)
unfolding diff_from
diff_from-find changed now zero first k h = ground arith
diff_from-find changed now (suc n) first k h = ground (
  arith,
  mask_test changed first (omega arith),
  mask_test now first (omega arith),
  diff_from-find changed now n (first + 1) k (omega arith),
)

IsAscending-weaken :
    (lo lo' hi : ℕ) (edges : List (ℕ × Bool))
    → lo ≤ lo'
    → IsAscending lo' hi edges
    → IsAscending lo hi edges
IsAscending-weaken lo lo' hi [] p a = tt
IsAscending-weaken lo lo' hi ((i, pressed) ∷ edges) p a = (omega arith, a.1, a.2)

diff_from-IsAscending :
    (changed now n first : ℕ)
    → first + n ≤ 64
    → IsAscending first 64 (diff_from changed now first n)
unfolding diff_from
diff_from-IsAscending changed now zero first h = tt
diff_from-IsAscending changed now (suc n) first h =
    let later = diff_from-IsAscending changed now n (first + 1) (omega arith) in
    elim (Bool-cases (bit_and changed (shl 64 1 first) == 0)) [
      | inl same ↦ rw same (IsAscending-weaken first (first + 1) 64 _ (omega arith) later)
      | inr edge ↦ rw edge (omega arith, omega arith, later)
    ]

-- The edges stand in ascending order of distinct button indices below 64.
pub buttons_diff-IsAscending :
    (c : ControlsReport) (prev : ℕ) → IsAscending 0 64 (buttons_diff c prev)
unfolding buttons_diff
buttons_diff-IsAscending c prev =
    diff_from-IsAscending (bit_xor c.buttons prev) c.buttons 64 0 (omega arith)

-- Button `k` has an edge exactly when it is below 64 and its digit differs between `prev` and the
-- report; the edge then carries the button's state in the report.
pub find_edge-buttons_diff :
    (c : ControlsReport) (prev k : ℕ)
    → find_edge k (buttons_diff c prev) ≡ (
        if ltb k 64 && not (bit c.buttons k == bit prev k)
        then some (bit c.buttons k == 1)
        else none)
unfolding buttons_diff
find_edge-buttons_diff c prev k =
    diff_from-find (bit_xor c.buttons prev) c.buttons 64 0 k (omega arith)
    ∙ rw (bit-bit_xor k c.buttons prev)
        (digits (bit c.buttons k) (bit prev k) (bit-lt-two _ k) (bit-lt-two _ k))
  where
    digits :
        (a b : ℕ)
        → a < 2
        → b < 2
        → (if leb 0 k && ltb k 64 && not (differ a b == 0) then some (not (a == 0)) else none)
          ≡ (if ltb k 64 && not (a == b) then some (a == 1) else none)
    digits zero zero p q = ground arith
    digits zero (suc zero) p q = ground arith
    digits zero (suc (suc b)) p q = absurd (omega arith)
    digits (suc zero) zero p q = ground arith
    digits (suc zero) (suc zero) p q = ground arith
    digits (suc zero) (suc (suc b)) p q = absurd (omega arith)
    digits (suc (suc a)) b p q = absurd (omega arith)
