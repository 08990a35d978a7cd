-- ===== src/Core/Display/Dirty/Tiles.antt =====
-- The tiles as a set: what each mark adds to it.
use openmk.Prelude.{
  ℕ, zero, suc, ◌+◌, ◌-◌, ◌*◌, ◌/◌, ◌%◌, ◌^◌, ◌<◌, ◌≡◌, ◌∙◌, ap, sym, min, inl, inr, Bool, true,
  false, ◌&&◌, ◌||◌, List, length, get_or, set, length-set, get_or-set_self, get_or-set_ne, ltb,
  leb, ◌==◌, if◌then◌else◌, Bool-cases, ==_iff, bit_or, bit, bit-lt-two, bit-bit_or, bit-pow_self,
  bit-pow_ne, bit_and_mask, bit-shift, shl, shl-one, arith,
}
use openmk.Core.Display.Dirty.{
  cols, rows, DirtyTracker, mark_tile, is_tile_dirty, mark_cols, mark_rows, mark_rect,
}

-- The tracker has its eight words.
abbrev pub IsSized : DirtyTracker → Type 0
IsSized t = length t.bits ≡ 8

abbrev pub tile_bit : List ℕ → ℕ → ℕ
tile_bit words i = bit (get_or words (i / 64) 0) (i % 64)

pub is_tile_dirty_lem :
    (t : DirtyTracker) (c r : ℕ)
    → c < cols
    → r < rows
    → is_tile_dirty t c r ≡ (tile_bit t.bits (r * cols + c) == 1)
unfolding is_tile_dirty
is_tile_dirty_lem t c r p q = ground (
  arith,
  bit_and_mask 1 (get_or t.bits ((r * 30 + c) / 64) 0 / 2 ^ ((r * 30 + c) % 64)),
  bit-shift ((r * 30 + c) % 64) (get_or t.bits ((r * 30 + c) / 64) 0),
)

set_digit : (w k m : ℕ) → k < 64 → bit (bit_or w (shl 64 1 k)) m ≡ (if k == m then 1 else bit w m)
set_digit w k m h =
    rw (shl-one k h, bit-bit_or m w (2 ^ k))
      (elim (Bool-cases (k == m)) [
        | inl same ↦ rw ((==_iff k m).0 same, bit-pow_self m) (ground (arith, bit-lt-two w m))
        | inr other ↦ rw (bit-pow_ne k m (ground arith)) (ground arith)
      ])

set_bit :
    (words : List ℕ) (i j : ℕ)
    → i / 64 < length words
    → tile_bit (set words (i / 64) (bit_or (get_or words (i / 64) 0) (shl 64 1 (i % 64)))) j
      ≡ (if i == j then 1 else tile_bit words j)
set_bit words i j h = elim (Bool-cases ((i / 64) == (j / 64))) [
  | inl same ↦ same_word ((==_iff _ _).0 same)
  | inr other ↦
      ap (λ w. bit w (j % 64)) (get_or-set_ne words (i / 64) (j / 64) marked 0 (ground arith))
      ∙ ground arith
]
  where
    marked : ℕ
    marked = bit_or (get_or words (i / 64) 0) (shl 64 1 (i % 64))

    digit :
        bit marked (j % 64)
        ≡ (if (i % 64) == (j % 64) then 1 else bit (get_or words (i / 64) 0) (j % 64))
    digit = set_digit (get_or words (i / 64) 0) (i % 64) (j % 64) (omega arith)

    same_word :
        (i / 64) ≡ (j / 64)
        → tile_bit (set words (i / 64) marked) j ≡ (if i == j then 1 else tile_bit words j)
    same_word e = rw (sym e) (
        rw (get_or-set_self words (i / 64) marked 0 h) (
          digit
          ∙ ap (λ (b : Bool). if b then 1 else bit (get_or words (i / 64) 0) (j % 64))
              (ground arith)))

pub is_tile_dirty_out :
    (t : DirtyTracker) (c r : ℕ) → (leb cols c || leb rows r) ≡ true → is_tile_dirty t c r ≡ false
unfolding is_tile_dirty
is_tile_dirty_out t c r h = rw h

pub mark_tile_out :
    (t : DirtyTracker) (c r : ℕ) → (leb cols c || leb rows r) ≡ true → mark_tile t c r ≡ t
unfolding mark_tile
mark_tile_out t c r h = rw h

pub mark_tile_in :
    (t : DirtyTracker) (c r : ℕ)
    → c < cols
    → r < rows
    → let idx = r * cols + c in
      (mark_tile t c r).bits
      ≡ set t.bits (idx / 64) (bit_or (get_or t.bits (idx / 64) 0) (shl 64 1 (idx % 64)))
unfolding mark_tile
mark_tile_in t c r p q = ground arith

-- After a mark exactly the marked tile, if it is in range, and the tiles marked before are dirty.
pub is_tile_dirty-mark_tile :
    (t : DirtyTracker) (c r i j : ℕ)
    → IsSized t
    → is_tile_dirty (mark_tile t c r) i j
      ≡ (is_tile_dirty t i j || (ltb i cols && ltb j rows && (c == i) && (r == j)))
is_tile_dirty-mark_tile t c r i j v = elim (Bool-cases (leb cols i || leb rows j)) [
  | inl outside ↦
      rw (is_tile_dirty_out t i j outside, is_tile_dirty_out (mark_tile t c r) i j outside)
        (ground arith)
  | inr inside ↦ elim (Bool-cases (leb cols c || leb rows r)) [
    | inl outside ↦ rw (mark_tile_out t c r outside) (ground arith)
    | inr within ↦
        rw
          (
            is_tile_dirty_lem (mark_tile t c r) i j (ground arith) (ground arith),
            is_tile_dirty_lem t i j (ground arith) (ground arith),
            mark_tile_in t c r (ground arith) (ground arith),
            set_bit t.bits (r * cols + c) (j * cols + i) (ground arith),
          )
          (ground arith)
  ]
]

pub mark_tile-IsSized : (t : DirtyTracker) (c r : ℕ) → IsSized t → IsSized (mark_tile t c r)
unfolding mark_tile
mark_tile-IsSized t c r v = elim (Bool-cases (leb cols c || leb rows r)) [
  | inl outside ↦ rw outside v
  | inr within ↦ rw within (length-set t.bits _ _ ∙ v)
]

mark_cols-IsSized : (t : DirtyTracker) (r c n : ℕ) → IsSized t → IsSized (mark_cols t r c n)
unfolding mark_cols
mark_cols-IsSized t r c zero v = v
mark_cols-IsSized t r c (suc n) v =
    mark_cols-IsSized (mark_tile t c r) r (c + 1) n (mark_tile-IsSized t c r v)

pub mark_rows-IsSized : (t : DirtyTracker) (r m c n : ℕ) → IsSized t → IsSized (mark_rows t r m c n)
unfolding mark_rows
mark_rows-IsSized t r zero c n v = v
mark_rows-IsSized t r (suc m) c n v =
    mark_rows-IsSized (mark_cols t r c n) (r + 1) m c n (mark_cols-IsSized t r c n v)

-- A loop over columns adds the tiles in range of row `r` in the `n` columns from `c` on.
is_tile_dirty-mark_cols :
    (t : DirtyTracker) (r c n i j : ℕ)
    → IsSized t
    → is_tile_dirty (mark_cols t r c n) i j
      ≡ (is_tile_dirty t i j || (ltb i cols && ltb j rows && leb c i && ltb i (c + n) && (r == j)))
unfolding mark_cols
is_tile_dirty-mark_cols t r c zero i j v = ground arith
is_tile_dirty-mark_cols t r c (suc n) i j v =
    is_tile_dirty-mark_cols (mark_tile t c r) r (c + 1) n i j (mark_tile-IsSized t c r v)
    ∙ rw (is_tile_dirty-mark_tile t c r i j v) (ground arith)

is_tile_dirty-mark_rows :
    (t : DirtyTracker) (r m c n i j : ℕ)
    → IsSized t
    → is_tile_dirty (mark_rows t r m c n) i j ≡ (
        is_tile_dirty t i j
        || (ltb i cols && ltb j rows && leb c i && ltb i (c + n) && leb r j && ltb j (r + m)))
unfolding mark_rows
is_tile_dirty-mark_rows t r zero c n i j v = ground arith
is_tile_dirty-mark_rows t r (suc m) c n i j v =
    is_tile_dirty-mark_rows (mark_cols t r c n) (r + 1) m c n i j (mark_cols-IsSized t r c n v)
    ∙ rw (is_tile_dirty-mark_cols t r c n i j v) (ground arith)

-- The 16 pixels of tile `k` and the `n` pixels from `a` on have one in common.
abbrev pub meets : ℕ → ℕ → ℕ → Bool
meets k a n = ltb 0 n && ltb a (k * 16 + 16) && ltb (k * 16) (a + n)

-- After a rectangle is marked, exactly the tiles in range that have a pixel of the rectangle and the
-- tiles marked before are dirty.
pub is_tile_dirty-mark_rect :
    (t : DirtyTracker) (x y w h i j : ℕ)
    → IsSized t
    → is_tile_dirty (mark_rect t x y w h) i j
      ≡ (is_tile_dirty t i j || (ltb i cols && ltb j rows && meets i x w && meets j y h))
unfolding mark_rect
is_tile_dirty-mark_rect t x y w h i j v = elim (Bool-cases ((w == 0) || (h == 0))) [
  | inl nothing ↦ rw nothing (ground arith)
  | inr some_pixel ↦ rw some_pixel (
      is_tile_dirty-mark_rows t (y / 16) (min ((y + h - 1) / 16) 16 + 1 - y / 16) (x / 16)
        (min ((x + w - 1) / 16) 29 + 1 - x / 16) i j v
      ∙ ap (λ b. is_tile_dirty t i j || b) (ground arith))
]
