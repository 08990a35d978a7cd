-- ===== src/Core/Display/Dirty.antt =====
-- crates/maschine-core/src/display/dirty.rs: which of the 16 by 16 pixel tiles have changed, as bits
-- of eight 64-bit words. A tile in range has its bit in one of the eight words, so that no index is
-- out of bounds.
pub mod Tiles
pub mod Runs
pub mod Full
pub mod Apart
use openmk.Prelude.{
  ℕ, zero, suc, ◌+◌, ◌-◌, ◌*◌, ◌/◌, ◌%◌, ◌^◌, min, Bool, true, false, not, ◌&&◌, ◌||◌, List, [],
  ◌∷◌, ◌++◌, get_or, set, replicate, ltb, leb, ◌==◌, if◌then◌else◌, bit_and, bit_or, shr, shl,
}

abbrev pub tile : ℕ
tile = 16

abbrev pub cols : ℕ
cols = 30

abbrev pub rows : ℕ
rows = 17

-- `BITS`
abbrev pub tile_bits : ℕ
tile_bits = cols * rows

-- `DirtyTracker`
pub record DirtyTracker : Type 0 where
  pub bits : List ℕ

abbrev pub DirtyTracker_new : DirtyTracker
DirtyTracker_new = record { bits = replicate 8 0 }

unfoldable pub clear : DirtyTracker → DirtyTracker
clear t = record { bits = replicate 8 0 }

-- The word that the loop of `mark_full` stores at index `i`.
unfoldable pub full_word : ℕ → ℕ
full_word i =
    let base = i * 64 in
    let end_ = min (base + 64) tile_bits in
    let n = end_ - base in
    if leb tile_bits base then 0 else if n == 64 then 2 ^ 64 - 1 else shl 64 1 n - 1

-- The loop of `mark_full`, from index `i` on.
unfoldable pub full_words : ℕ → List ℕ → List ℕ
full_words i [] = []
full_words i (b ∷ bs) = full_word i ∷ full_words (i + 1) bs

unfoldable pub mark_full : DirtyTracker → DirtyTracker
mark_full t = record { bits = full_words 0 t.bits }

unfoldable pub all_zero : List ℕ → Bool
all_zero [] = true
all_zero (b ∷ bs) = (b == 0) && all_zero bs

unfoldable pub is_empty : DirtyTracker → Bool
is_empty t = all_zero t.bits

unfoldable pub mark_tile : DirtyTracker → ℕ → ℕ → DirtyTracker
mark_tile t col row =
    if leb cols col || leb rows row
    then t
    else let idx = row * cols + col in
      let word = get_or t.bits (idx / 64) 0 in
      record { bits = set t.bits (idx / 64) (bit_or word (shl 64 1 (idx % 64))) }

unfoldable pub is_tile_dirty : DirtyTracker → ℕ → ℕ → Bool
is_tile_dirty t col row =
    if leb cols col || leb rows row
    then false
    else let idx = row * cols + col in
      not (bit_and (shr (get_or t.bits (idx / 64) 0) (idx % 64)) 1 == 0)

unfoldable pub mark_pixel : DirtyTracker → ℕ → ℕ → DirtyTracker
mark_pixel t x y = mark_tile t (x / tile) (y / tile)

-- The inner loop of `mark_rect` over `n` columns from `c` on.
unfoldable pub mark_cols : DirtyTracker → ℕ → ℕ → ℕ → DirtyTracker
mark_cols t r c zero = t
mark_cols t r c (suc n) = mark_cols (mark_tile t c r) r (c + 1) n

-- The outer loop over `m` rows from `r` on.
unfoldable pub mark_rows : DirtyTracker → ℕ → ℕ → ℕ → ℕ → DirtyTracker
mark_rows t r zero c n = t
mark_rows t r (suc m) c n = mark_rows (mark_cols t r c n) (r + 1) m c n

-- A range `a..=b` has `b + 1 - a` elements, none if `b` is below `a`.
unfoldable pub mark_rect : DirtyTracker → ℕ → ℕ → ℕ → ℕ → DirtyTracker
mark_rect t x y w h =
    let c0 = x / tile in
    let r0 = y / tile in
    let c1 = (x + w - 1) / tile in
    let r1 = (y + h - 1) / tile in
    if (w == 0) || (h == 0)
    then t
    else mark_rows t r0 (min r1 (rows - 1) + 1 - r0) c0 (min c1 (cols - 1) + 1 - c0)

-- The inner loop of `runs`: the first column from `c` on that is out of range or clean.
unfoldable pub run_end : DirtyTracker → ℕ → ℕ → ℕ → ℕ
run_end t r c zero = c
run_end t r c (suc fuel) =
    let next = run_end t r (c + 1) fuel in if ltb c cols && is_tile_dirty t c r then next else c

-- The loop of `runs` over the columns of row `r` from `c` on.
unfoldable pub row_runs : DirtyTracker → ℕ → ℕ → ℕ → List (ℕ × ℕ × ℕ)
row_runs t r c zero = []
row_runs t r c (suc fuel) =
    let is_start = is_tile_dirty t c r in
    let after = if is_start then run_end t r c cols else c + 1 in
    let later = row_runs t r after fuel in
    if ltb c cols then (if is_start then (r, c, after - 1) ∷ later else later) else []

-- The loop over the `n` rows from `r` on.
unfoldable pub rows_runs : DirtyTracker → ℕ → ℕ → List (ℕ × ℕ × ℕ)
rows_runs t r zero = []
rows_runs t r (suc n) = row_runs t r 0 cols ++ rows_runs t (r + 1) n

unfoldable pub runs : DirtyTracker → List (ℕ × ℕ × ℕ)
runs t = rows_runs t 0 rows
