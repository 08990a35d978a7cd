-- ===== src/Core/Display/Dirty/Runs.antt =====
-- `DirtyTracker::runs`: the dirty tiles of each row as maximal intervals.
use openmk.Prelude.{
  ℕ, zero, suc, ◌+◌, ◌-◌, ◌≤◌, ◌<◌, ◌≡◌, ◌∙◌, refl, ap, ap₂, sym, inl, inr, Bool, true, false, ◌&&◌,
  ◌||◌, List, [], ◌∷◌, ◌++◌, ltb, leb, ◌==◌, ==_iff, Bool-cases, arith,
}
use openmk.Core.Display.Dirty.{
  cols, rows, DirtyTracker, is_tile_dirty, run_end, row_runs, rows_runs, runs,
}
use openmk.Core.Display.Dirty.Tiles.{is_tile_dirty_out}

-- Tile (i, j) is in one of the runs.
abbrev pub covered : List (ℕ × ℕ × ℕ) → ℕ → ℕ → Bool
covered [] i j = false
covered ((r, a, b) ∷ later) i j = ((r == j) && leb a i && leb i b) || covered later i j

-- What `run_end` finds from column `c` on, in a row with the dirty tiles `dirty`.
pub record Ends (dirty : ℕ → Bool) (c e : ℕ) : Type 0 where
  pub begins : c ≤ e
  pub in_row : e ≤ cols
  pub stops : dirty e ≡ false
  pub solid : (i : ℕ) → c ≤ i → i < e → dirty i ≡ true

right_of_row : (t : DirtyTracker) (c r : ℕ) → cols ≤ c → is_tile_dirty t c r ≡ false
right_of_row t c r h = is_tile_dirty_out t c r (ground arith)

Ends-here : (dirty : ℕ → Bool) (c : ℕ) → c ≤ cols → dirty c ≡ false → Ends dirty c c
Ends-here dirty c p stop = record {
  begins = omega arith;
  in_row = p;
  stops = stop;
  solid = λ i u v. absurd (omega arith);
}

Ends-further : (dirty : ℕ → Bool) (c e : ℕ) → dirty c ≡ true → Ends dirty (c + 1) e → Ends dirty c e
Ends-further dirty c e first h = record {
  begins = omega (arith, h.begins);
  in_row = h.in_row;
  stops = h.stops;
  solid = λ i u v. elim (Bool-cases (c == i)) [
    | inl same ↦ ap dirty (sym ((==_iff c i).0 same)) ∙ first
    | inr other ↦ h.solid i (ground arith) v
  ];
}

pub run_end-Ends :
    (t : DirtyTracker) (r c fuel : ℕ)
    → c ≤ cols
    → cols ≤ c + fuel
    → Ends (λ i. is_tile_dirty t i r) c (run_end t r c fuel)
unfolding run_end
run_end-Ends t r c zero p q = Ends-here _ c p (right_of_row t c r (omega arith))
run_end-Ends t r c (suc fuel) p q = elim (Bool-cases (ltb c cols)) [
  | inl inside ↦ elim (Bool-cases (is_tile_dirty t c r)) [
    | inl dirty ↦
        rw (inside, dirty)
          (Ends-further _ c _ dirty (run_end-Ends t r (c + 1) fuel (ground arith) (omega arith)))
    | inr clean ↦ rw (inside, clean) (Ends-here _ c p clean)
  ]
  | inr outside ↦ rw outside (Ends-here _ c p (right_of_row t c r (ground arith)))
]

-- What one step of the row loop adds.
run_covers :
    (dirty : ℕ → ℕ → Bool) (later : List (ℕ × ℕ × ℕ)) (r c e i j : ℕ)
    → Ends (λ k. dirty k r) c e
    → c < e
    → covered later i j ≡ ((r == j) && leb e i && dirty i j)
    → covered ((r, c, e - 1) ∷ later) i j ≡ ((r == j) && leb c i && dirty i j)
run_covers dirty later r c e i j h p rest = elim (Bool-cases ((r == j) && leb c i && ltb i e)) [
  | inl inside ↦
      let row : r ≡ j = ground arith in
      let lit : dirty i j ≡ true =
        ap (λ k. dirty i k) (sym row) ∙ h.solid i (ground arith) (ground arith) in
      rw (rest, lit) (ground arith)
  | inr outside ↦ rw rest (ground arith)
]

clean_covers :
    (dirty : ℕ → ℕ → Bool) (r c i j : ℕ)
    → dirty c r ≡ false
    → ((r == j) && leb (c + 1) i && dirty i j) ≡ ((r == j) && leb c i && dirty i j)
clean_covers dirty r c i j clean = elim (Bool-cases ((r == j) && (c == i))) [
  | inl here ↦
      let row : r ≡ j = ground arith in
      let column : c ≡ i = ground arith in
      let off : dirty i j ≡ false = ap₂ dirty (sym column) (sym row) ∙ clean in
      rw off (ground arith)
  | inr elsewhere ↦ ground arith
]

beyond :
    (t : DirtyTracker) (r c i j : ℕ)
    → cols ≤ c
    → false ≡ ((r == j) && leb c i && is_tile_dirty t i j)
beyond t r c i j h = elim (Bool-cases (leb c i)) [
  | inl right ↦ rw (right_of_row t i j (ground arith)) (ground arith)
  | inr left ↦ ground arith
]

-- A run that begins at a dirty tile does not end there.
pub passes : (dirty : ℕ → Bool) (c e : ℕ) → Ends dirty c e → dirty c ≡ true → c < e
passes dirty c e h first = elim (Bool-cases (c == e)) [
  | inl same ↦ absurd (ground (arith, h.stops, first, ap dirty ((==_iff c e).0 same)))
  | inr other ↦ ground (arith, h.begins)
]

covered-row_runs :
    (t : DirtyTracker) (r c fuel i j : ℕ)
    → c ≤ cols
    → cols ≤ c + fuel
    → covered (row_runs t r c fuel) i j ≡ ((r == j) && leb c i && is_tile_dirty t i j)
unfolding row_runs
covered-row_runs t r c zero i j p q = beyond t r c i j (omega arith)
covered-row_runs t r c (suc fuel) i j p q = elim (Bool-cases (ltb c cols)) [
  | inl inside ↦ elim (Bool-cases (is_tile_dirty t c r)) [
    | inl dirty ↦
        let e : ℕ = run_end t r c cols in
        let ends : Ends (λ k. is_tile_dirty t k r) c e = run_end-Ends t r c cols p (omega arith) in
        let grows : c < e = passes _ c e ends dirty in
        rw (inside, dirty)
          (run_covers (is_tile_dirty t) _ r c e i j ends grows
            (covered-row_runs t r e fuel i j ends.in_row (omega arith)))
    | inr clean ↦
        rw (inside, clean)
          (covered-row_runs t r (c + 1) fuel i j (ground arith) (omega arith)
            ∙ clean_covers (is_tile_dirty t) r c i j clean)
  ]
  | inr outside ↦ rw outside (beyond t r c i j (ground arith))
]

covered-append :
    (xs ys : List (ℕ × ℕ × ℕ)) (i j : ℕ)
    → covered (xs ++ ys) i j ≡ (covered xs i j || covered ys i j)
covered-append [] ys i j = refl
covered-append ((r, a, b) ∷ xs) ys i j = rw (covered-append xs ys i j) (ground arith)

covered-rows_runs :
    (t : DirtyTracker) (r n i j : ℕ)
    → covered (rows_runs t r n) i j ≡ (leb r j && ltb j (r + n) && is_tile_dirty t i j)
unfolding rows_runs
covered-rows_runs t r zero i j = ground arith
covered-rows_runs t r (suc n) i j =
    covered-append (row_runs t r 0 cols) (rows_runs t (r + 1) n) i j
    ∙ rw
        (
          covered-row_runs t r 0 cols i j (omega arith) (omega arith),
          covered-rows_runs t (r + 1) n i j,
        )
        (ground arith)

-- A tile is dirty exactly when it is in one of the runs; in particular no run reaches out of range,
-- and the loops do not stop early.
pub covered-runs : (t : DirtyTracker) (i j : ℕ) → covered (runs t) i j ≡ is_tile_dirty t i j
unfolding runs
covered-runs t i j = covered-rows_runs t 0 rows i j ∙ elim (Bool-cases (ltb j rows)) [
  | inl inside ↦ rw inside (ground arith)
  | inr below ↦ rw below (rw (is_tile_dirty_out t i j (ground arith)) (ground arith))
]
