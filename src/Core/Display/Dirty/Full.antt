-- ===== src/Core/Display/Dirty/Full.antt =====
-- `DirtyTracker::mark_full`, `clear` and `is_empty`.
use native.Mathlib.Nat.{pow-le-pow_right, one-le-pow, pow-suc}
use openmk.Prelude.{
  ℕ, zero, suc, ◌+◌, ◌-◌, ◌*◌, ◌/◌, ◌%◌, ◌^◌, ◌<◌, ◌≡◌, ◌↔◌, ◌∙◌, refl, ap, sym, inl, inr, true,
  false, ◌&&◌, ◌||◌, List, [], ◌∷◌, ◌++◌, length, get_or, get_or_out, get_or-set_self,
  get_or-set_ne, set, replicate, ltb, leb, ◌==◌, ==_iff, if◌then◌else◌, Bool-cases, bit, bit-zero,
  bit_or, bit_or-lt, bit_mask_in, bit-lt-two, zero_of_bits, shl, shl-one, arith,
}
use openmk.Core.Display.Dirty.{
  cols, rows, tile_bits, DirtyTracker, full_words, full_word, mark_full, all_zero, is_empty,
  mark_tile, is_tile_dirty, mark_cols, mark_rows, mark_rect, runs,
}
use openmk.Core.Display.Dirty.Tiles.{
  IsSized, tile_bit, is_tile_dirty_lem, is_tile_dirty_out, mark_tile_in, mark_tile_out,
  mark_tile-IsSized,
}
use openmk.Core.Display.Dirty.Runs.{covered, covered-runs}
use openmk.Core.Display.Dirty.Apart.{AreApart, runs-AreApart}

-- The digits of word `k` that stand for a tile.
abbrev pub used : ℕ → ℕ
used k = if ltb k 7 then 64 else 62

-- Eight words, and no digit set that stands for no tile.
pub record IsTracker (t : DirtyTracker) : Type 0 where
  pub sized : IsSized t
  pub words_fit : (k : ℕ) → get_or t.bits k 0 < 2 ^ used k

-- 510 digits set, of 512.
abbrev full_pattern : List ℕ
full_pattern = replicate 7 (2 ^ 64 - 1) ++ ((2 ^ 62 - 1) ∷ [])

full_bits :
    (b0 b1 b2 b3 b4 b5 b6 b7 : ℕ)
    → full_words 0 (b0 ∷ b1 ∷ b2 ∷ b3 ∷ b4 ∷ b5 ∷ b6 ∷ b7 ∷ []) ≡ full_pattern
unfolding full_words full_word
full_bits b0 b1 b2 b3 b4 b5 b6 b7 = refl

mark_full_bits : (t : DirtyTracker) → IsSized t → (mark_full t).bits ≡ full_pattern
unfolding mark_full
mark_full_bits t v = by_words t.bits v
  where
    by_words : (bs : List ℕ) → length bs ≡ 8 → full_words 0 bs ≡ full_pattern
    by_words (b0 ∷ b1 ∷ b2 ∷ b3 ∷ b4 ∷ b5 ∷ b6 ∷ b7 ∷ []) e = full_bits b0 b1 b2 b3 b4 b5 b6 b7
    by_words _ e = absurd (omega arith)

get_or-replicate_append :
    (n i v w : ℕ)
    → get_or (replicate n v ++ (w ∷ [])) i 0 ≡ (if ltb i n then v else if i == n then w else 0)
get_or-replicate_append zero zero v w = refl
get_or-replicate_append zero (suc i) v w = ground arith
get_or-replicate_append (suc n) zero v w = ground arith
get_or-replicate_append (suc n) (suc i) v w = get_or-replicate_append n i v w ∙ ground arith

full_digit : (k : ℕ) → k < tile_bits → tile_bit (full_pattern) k ≡ 1
full_digit k h =
    rw (get_or-replicate_append 7 (k / 64) (2 ^ 64 - 1) (2 ^ 62 - 1))
      (elim (Bool-cases (ltb (k / 64) 7)) [
        | inl whole ↦ rw whole (bit_mask_in 64 (k % 64) (omega arith))
        | inr last ↦
            rw (last, (==_iff (k / 64) 7).1 (ground arith)) (bit_mask_in 62 (k % 64) (ground arith))
      ])

-- After `mark_full` exactly the tiles in range are dirty, and no other digit is set.
pub is_tile_dirty-mark_full :
    (t : DirtyTracker) (i j : ℕ)
    → IsSized t
    → is_tile_dirty (mark_full t) i j ≡ (ltb i cols && ltb j rows)
is_tile_dirty-mark_full t i j v = elim (Bool-cases (leb cols i || leb rows j)) [
  | inl outside ↦ rw (is_tile_dirty_out (mark_full t) i j outside) (ground arith)
  | inr inside ↦
      rw
        (
          is_tile_dirty_lem (mark_full t) i j (ground arith) (ground arith),
          mark_full_bits t v,
          full_digit (j * cols + i) (ground arith),
        )
        (ground arith)
]

pub mark_full-IsTracker : (t : DirtyTracker) → IsSized t → IsTracker (mark_full t)
mark_full-IsTracker t v = record {
  sized = rw (mark_full_bits t v) refl;
  words_fit = λ k.
      rw (mark_full_bits t v, get_or-replicate_append 7 k (2 ^ 64 - 1) (2 ^ 62 - 1))
        (elim (Bool-cases (ltb k 7)) [
          | inl whole ↦ rw whole (omega arith)
          | inr last ↦ rw last (ground arith)
        ]);
}

pow-lt : (m n : ℕ) → m < n → 2 ^ m < 2 ^ n
pow-lt m n h = omega (
  arith,
  pow-suc 2 m,
  one-le-pow m 2 (omega arith),
  pow-le-pow_right {n = 2} (omega arith) {i = suc m} {j = n} (omega arith),
)

pub mark_tile-IsTracker : (t : DirtyTracker) (c r : ℕ) → IsTracker t → IsTracker (mark_tile t c r)
mark_tile-IsTracker t c r v = elim (Bool-cases (leb cols c || leb rows r)) [
  | inl outside ↦ rw (mark_tile_out t c r outside) v
  | inr within ↦ record {
    sized = mark_tile-IsSized t c r v.sized;
    words_fit = λ k.
        rw (mark_tile_in t c r (ground arith) (ground arith))
          (word (r * cols + c) (ground arith) k);
  }
]
  where
    word :
        (i : ℕ)
        → i < tile_bits
        → (k : ℕ)
        → get_or (set t.bits (i / 64) (bit_or (get_or t.bits (i / 64) 0) (shl 64 1 (i % 64)))) k 0
          < 2 ^ used k
    word i p k = elim (Bool-cases ((i / 64) == k)) [
      | inl same ↦ rw (sym ((==_iff _ k).0 same)) (
          rw
            (
              get_or-set_self t.bits (i / 64)
                  (bit_or (get_or t.bits (i / 64) 0) (shl 64 1 (i % 64))) 0
                  (omega (arith, v.sized)),
              shl-one (i % 64) (omega arith),
            )
            (bit_or-lt (used (i / 64)) _ _ (v.words_fit (i / 64))
              (pow-lt (i % 64) (used (i / 64)) (ground arith))))
      | inr other ↦
          rw
            (get_or-set_ne t.bits (i / 64) k (bit_or (get_or t.bits (i / 64) 0) (shl 64 1 (i % 64)))
              0 (ground arith))
            (v.words_fit k)
    ]

all_zero-get_or : (words : List ℕ) → all_zero words ≡ true → (k : ℕ) → get_or words k 0 ≡ 0
unfolding all_zero
all_zero-get_or [] h k = refl
all_zero-get_or (w ∷ words) h zero = ground arith
all_zero-get_or (w ∷ words) h (suc k) = all_zero-get_or words (ground arith) k

get_or-all_zero : (words : List ℕ) → ((k : ℕ) → get_or words k 0 ≡ 0) → all_zero words ≡ true
unfolding all_zero
get_or-all_zero [] h = refl
get_or-all_zero (w ∷ words) h = rw (h 0, get_or-all_zero words (λ k. h (suc k))) refl

no_runs-clean : (t : DirtyTracker) → runs t ≡ [] → (i j : ℕ) → is_tile_dirty t i j ≡ false
no_runs-clean t e i j = sym (covered-runs t i j) ∙ ap (λ rs. covered rs i j) e

clean-no_runs : (t : DirtyTracker) → ((i j : ℕ) → is_tile_dirty t i j ≡ false) → runs t ≡ []
clean-no_runs t h = by_runs (runs t) (runs-AreApart t) (λ i j. covered-runs t i j ∙ h i j)
  where
    by_runs :
        (rs : List (ℕ × ℕ × ℕ)) → AreApart 0 0 rs → ((i j : ℕ) → covered rs i j ≡ false) → rs ≡ []
    by_runs [] v g = refl
    by_runs ((r, a, b) ∷ rs) (first, in_rows, ordered, in_cols, rest) g =
        absurd (ground (arith, g a r, ordered))

word_zero :
    (t : DirtyTracker) (k : ℕ)
    → IsTracker t
    → ((i j : ℕ) → is_tile_dirty t i j ≡ false)
    → get_or t.bits k 0 ≡ 0
word_zero t k v h = elim (Bool-cases (ltb k 8)) [
  | inl inside ↦ zero_of_bits (used k) _ (v.words_fit k) (λ m p. digit k m (ground arith) p)
  | inr outside ↦ get_or_out t.bits k 0 (ground (arith, v.sized))
]
  where
    digit : (q m : ℕ) → q < 8 → m < used q → bit (get_or t.bits q 0) m ≡ 0
    digit q m p u =
        let i = q * 64 + m in
        let word : i / 64 ≡ q = ground arith in
        let place : i % 64 ≡ m = ground arith in
        let tile : i / 30 * cols + i % 30 ≡ i = omega arith in
        let seen = is_tile_dirty_lem t (i % 30) (i / 30) (omega arith) (ground arith) in
        let still = sym (h (i % 30) (i / 30)) ∙ seen ∙ ap (λ n. tile_bit t.bits n == 1) tile in
        let same : tile_bit t.bits i ≡ bit (get_or t.bits q 0) m =
          ap (λ n. bit (get_or t.bits n 0) (i % 64)) word ∙ ap (bit (get_or t.bits q 0)) place in
        ground (arith, still, same, bit-lt-two (get_or t.bits q 0) m)

no_bit :
    (t : DirtyTracker) (i j : ℕ) → ((k : ℕ) → get_or t.bits k 0 ≡ 0) → is_tile_dirty t i j ≡ false
no_bit t i j h = elim (Bool-cases (leb cols i || leb rows j)) [
  | inl outside ↦ is_tile_dirty_out t i j outside
  | inr inside ↦
      rw
        (
          is_tile_dirty_lem t i j (ground arith) (ground arith),
          h ((j * cols + i) / 64),
          bit-zero ((j * cols + i) % 64),
        )
        refl
]

-- A tracker with a dirty tile is not empty.
pub is_empty_dirty : (t : DirtyTracker) (i j : ℕ) → is_tile_dirty t i j ≡ true → is_empty t ≡ false
unfolding is_empty
is_empty_dirty t i j h = elim (Bool-cases (all_zero t.bits)) [
  | inl empty ↦ absurd (ground (arith, h, no_bit t i j (all_zero-get_or t.bits empty)))
  | inr filled ↦ filled
]

-- The tracker is empty exactly when it has no runs.
pub is_empty_iff : (t : DirtyTracker) → IsTracker t → (is_empty t ≡ true) ↔ (runs t ≡ [])
unfolding is_empty
is_empty_iff t v = (
  λ e. clean-no_runs t (λ i j. no_bit t i j (all_zero-get_or t.bits e)),
  λ e. get_or-all_zero t.bits (λ k. word_zero t k v (no_runs-clean t e)),
)

mark_cols-IsTracker : (t : DirtyTracker) (r c n : ℕ) → IsTracker t → IsTracker (mark_cols t r c n)
unfolding mark_cols
mark_cols-IsTracker t r c zero v = v
mark_cols-IsTracker t r c (suc n) v =
    mark_cols-IsTracker (mark_tile t c r) r (c + 1) n (mark_tile-IsTracker t c r v)

mark_rows-IsTracker :
    (t : DirtyTracker) (r m c n : ℕ) → IsTracker t → IsTracker (mark_rows t r m c n)
unfolding mark_rows
mark_rows-IsTracker t r zero c n v = v
mark_rows-IsTracker t r (suc m) c n v =
    mark_rows-IsTracker (mark_cols t r c n) (r + 1) m c n (mark_cols-IsTracker t r c n v)

-- Marking a rectangle, also one that reaches out of the screen, keeps eight words and sets no digit
-- that stands for no tile.
pub mark_rect-IsTracker :
    (t : DirtyTracker) (x y w h : ℕ) → IsTracker t → IsTracker (mark_rect t x y w h)
unfolding mark_rect
mark_rect-IsTracker t x y w h v = elim (Bool-cases ((w == 0) || (h == 0))) [
  | inl nothing ↦ rw nothing v
  | inr some_pixel ↦ rw some_pixel (mark_rows-IsTracker t _ _ _ _ v)
]
