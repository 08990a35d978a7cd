-- ===== src/Core/Display/Dirty/Apart.antt =====
-- The order of the runs, and the clean tiles between them.
use openmk.Prelude.{
  ℕ, zero, suc, ◌+◌, ◌≤◌, ◌<◌, ◌≡◌, ◌⊎◌, inl, inr, refl, subst, true, List, [], ◌∷◌, ◌++◌, ltb,
  Bool-cases, arith,
}
use openmk.Core.Display.Dirty.{
  cols, rows, DirtyTracker, is_tile_dirty, run_end, row_runs, rows_runs, runs,
}
use openmk.Core.Display.Dirty.Runs.{Ends, run_end-Ends, passes}

-- Runs of tiles in range, by row and in a row by column, from column `lo` of row `row` on; between two
-- runs of a row there is a tile of neither.
abbrev pub AreApart : ℕ → ℕ → List (ℕ × ℕ × ℕ) → Type 0
AreApart row lo [] = Unit
AreApart row lo ((r, a, b) ∷ later) =
    ((row < r) ⊎ ((row ≡ r) × (lo ≤ a)))
    × (r < rows)
    × (a ≤ b)
    × (b < cols)
    × AreApart r (b + 2) later

AreApart-below :
    (row lo : ℕ) (later : List (ℕ × ℕ × ℕ)) → AreApart (row + 1) 0 later → AreApart row lo later
AreApart-below row lo [] h = tt
AreApart-below row lo ((r, a, b) ∷ later) (first, in_rows, ordered, in_cols, rest) =
    (inl (ground (arith, first)), in_rows, ordered, in_cols, rest)

row_runs-AreApart :
    (t : DirtyTracker) (r c lo fuel : ℕ) (later : List (ℕ × ℕ × ℕ))
    → r < rows
    → c ≤ cols
    → lo ≤ c + 1
    → (is_tile_dirty t c r ≡ true → lo ≤ c)
    → AreApart (r + 1) 0 later
    → AreApart r lo (row_runs t r c fuel ++ later)
unfolding row_runs
row_runs-AreApart t r c lo zero later row p near first h = AreApart-below r lo later h
row_runs-AreApart t r c lo (suc fuel) later row p near first h = elim (Bool-cases (ltb c cols)) [
  | inl inside ↦ elim (Bool-cases (is_tile_dirty t c r)) [
    | inl dirty ↦
        let e : ℕ = run_end t r c cols in
        let ends : Ends (λ k. is_tile_dirty t k r) c e = run_end-Ends t r c cols p (omega arith) in
        let grows : c < e = passes _ c e ends dirty in
        rw (inside, dirty)
          (
            inr (refl, first dirty),
            row,
            omega arith,
            omega (arith, ends.in_row),
            subst (λ k. AreApart r k (row_runs t r e fuel ++ later)) (omega arith)
                (row_runs-AreApart t r e (e + 1) fuel later row ends.in_row (omega arith)
                  (λ lit. absurd (ground (arith, ends.stops, lit))) h),
          )
    | inr clean ↦
        rw (inside, clean)
          (row_runs-AreApart t r (c + 1) lo fuel later row (ground arith) (omega arith) (λ _. near)
            h)
  ]
  | inr outside ↦ rw outside (AreApart-below r lo later h)
]

rows_runs-AreApart : (t : DirtyTracker) (r n : ℕ) → r + n ≤ rows → AreApart r 0 (rows_runs t r n)
unfolding rows_runs
rows_runs-AreApart t r zero h = tt
rows_runs-AreApart t r (suc n) h =
    row_runs-AreApart t r 0 0 cols (rows_runs t (r + 1) n) (omega arith) (omega arith) (omega arith)
      (λ _. omega arith) (rows_runs-AreApart t (r + 1) n (omega arith))

-- The runs come row by row and in a row from left to right, each holds at least one tile and lies in
-- range, and between two runs of a row there is a tile of neither.
pub runs-AreApart : (t : DirtyTracker) → AreApart 0 0 (runs t)
unfolding runs
runs-AreApart t = rows_runs-AreApart t 0 rows (omega arith)
