-- ===== src/Ui/Browse/Window.antt =====
-- The part of a list that a display shows.
use openmk.Prelude.{
  ℕ, zero, suc, ◌+◌, ◌-◌, ◌/◌, ◌<◌, ◌≡◌, ◌∙◌, refl, ap, true, false, some, List, [], ◌∷◌, ◌++◌,
  length, ltb, ◌==◌, as_u16, get_elem?, take, drop, arith,
}
use openmk.Nks.Plid.{Str}
use openmk.Index.Query.{PresetRow}
use openmk.Ui.Render.{PixelSink, sink_fill_rect}
use openmk.Ui.Browse.{
  BrowseState, bg, selected, visible, start, row_y, draw_row, draw_rows, draw_caption, status_strip,
  render_right, facet_y, draw_facet, draw_facets,
}

get_elem?-drop {ℓ} :
    {A : Type ℓ} (n i : ℕ) (xs : List A) → get_elem? (drop n xs) i ≡ get_elem? xs (n + i)
get_elem?-drop zero i xs = ap (get_elem? xs) (omega arith)
get_elem?-drop (suc n) i [] = refl
get_elem?-drop (suc n) i (x ∷ xs) =
    get_elem?-drop n i xs ∙ ap (get_elem? (x ∷ xs)) {x = suc (n + i)} (omega arith)

get_elem?-take {ℓ} :
    {A : Type ℓ} (n i : ℕ) (xs : List A) → i < n → get_elem? (take n xs) i ≡ get_elem? xs i
get_elem?-take zero i xs h = absurd (omega arith)
get_elem?-take (suc n) i [] h = refl
get_elem?-take (suc n) zero (x ∷ xs) h = refl
get_elem?-take (suc n) (suc i) (x ∷ xs) h = get_elem?-take n i xs (omega arith)

split_at {ℓ} :
    {A : Type ℓ} (k : ℕ) (x : A) (xs : List A)
    → get_elem? xs k ≡ some x
    → (before : List A) × (after : List A) × (xs ≡ before ++ x ∷ after) × (length before ≡ k)
split_at k x [] e = absurd (grind arith)
split_at zero x (y ∷ xs) e = ([], xs, grind arith, refl)
split_at (suc k) x (y ∷ xs) e =
    let (before, after, same, n) = split_at k x xs e in
    (y ∷ before, after, ap (λ ys. y ∷ ys) same, ap suc n)

module _ {S : Type 0} (sink : PixelSink S) where
  -- Entries drawn one below the other, from number `i` on.
  unfoldable pub draw_each : ℕ → ℕ → List Str → S → S
  draw_each cursor i [] s = s
  draw_each cursor i (val ∷ vals) s = draw_each cursor (i + 1) vals (draw_facet sink cursor i val s)

  -- Rows drawn one below the other from offset `i` on, none of them highlighted.
  unfoldable pub draw_plain : ℕ → List PresetRow → S → S
  draw_plain i [] s = s
  draw_plain i (row ∷ rows) s = draw_plain (i + 1) rows (draw_row sink false (row_y sink i) row s)

  below_cursor :
      (cursor from i : ℕ) (rows : List PresetRow) (s : S)
      → cursor < from + i
      → draw_rows sink cursor from i rows s ≡ draw_plain i rows s
  unfolding draw_rows draw_plain
  below_cursor cursor from i [] s h = refl
  below_cursor cursor from i (row ∷ rows) s h =
      let ne : (from + i == cursor) ≡ false = ground arith in
      rw ne (
        below_cursor cursor from (i + 1) rows (draw_row sink false (row_y sink i) row s)
          (omega arith))

  around_cursor :
      (cursor from i k : ℕ) (before : List PresetRow) (sel : PresetRow) (after : List PresetRow)
      (s : S)
      → i + length before ≡ k
      → from + k ≡ cursor
      → draw_rows sink cursor from i (before ++ sel ∷ after) s
        ≡ draw_plain (k + 1) after (draw_row sink true (row_y sink k) sel (draw_plain i before s))
  unfolding draw_rows draw_plain
  around_cursor cursor from i k [] sel after s e f =
      let at : k ≡ i = omega arith in
      let here : (from + i == cursor) ≡ true = ground arith in
      rw at (
        ap (λ c. draw_rows sink cursor from (i + 1) after (draw_row sink c (row_y sink i) sel s))
          here
        ∙ below_cursor cursor from (i + 1) after (draw_row sink true (row_y sink i) sel s)
            (omega arith))
  around_cursor cursor from i k (row ∷ before) sel after s e f =
      let ne : (from + i == cursor) ≡ false = ground arith in
      ap
        (λ c.
          draw_rows sink cursor from (i + 1) (before ++ sel ∷ after)
            (draw_row sink c (row_y sink i) row s))
        ne
      ∙ around_cursor cursor from (i + 1) k before sel after
          (draw_row sink false (row_y sink i) row s) (omega arith) f

  shown_selected :
      (b : BrowseState) (s : S) (sel : PresetRow)
      → 0 < visible sink s
      → selected b ≡ some sel
      → get_elem? (take (visible sink s) (drop (start sink b s) b.rows)) (b.cursor - start sink b s)
        ≡ some sel
  unfolding start selected
  shown_selected b s sel h e =
      get_elem?-take (visible sink s) (b.cursor - (b.cursor - visible sink s / 2)) _ (omega arith)
      ∙ get_elem?-drop (b.cursor - visible sink s / 2) _ b.rows
      ∙ ap (get_elem? b.rows) (omega arith)
      ∙ e

  -- If there is a selected row, the right display draws, over the background, the rows that it shows, one
  -- below the other: exactly one of them is highlighted, and it is the selected one, whose number among
  -- them is the cursor less the first row's number; the status strip has the selected row's caption.
  -- Condition: the display has room for a row.
  pub render_right-selected :
      (b : BrowseState) (s : S) (sel : PresetRow)
      → let filled = sink_fill_rect sink s 0 0 (sink.width s) (sink.height s) bg in
        let k = b.cursor - start sink b filled in
        0 < visible sink filled
        → selected b ≡ some sel
        → (before : List PresetRow) × (after : List PresetRow) × (take
              (visible sink filled)
              (drop (start sink b filled) b.rows)
            ≡ before ++ sel ∷ after)
          × (length before ≡ k)
          × (render_right sink b s
              ≡ draw_caption sink (some sel) (
                  status_strip sink (
                    draw_plain
                      (k + 1)
                      after
                      (draw_row sink true (row_y sink k) sel (draw_plain 0 before filled)))))
  unfolding render_right
  render_right-selected b s sel h e =
      let filled = sink_fill_rect sink s 0 0 (sink.width s) (sink.height s) bg in
      let (before, after, same, n) =
        split_at (b.cursor - start sink b filled) sel _ (shown_selected b filled sel h e) in
      let from_cursor : start sink b filled + (b.cursor - start sink b filled) ≡ b.cursor =
        unfold start in omega arith in
      (
        before,
        after,
        same,
        n,
        ap
              (λ rows.
                draw_caption sink (selected b)
                  (status_strip sink (draw_rows sink b.cursor (start sink b filled) 0 rows filled)))
              same
            ∙ ap
                (λ o. draw_caption sink o (
                  status_strip sink (
                    draw_rows sink b.cursor (start sink b filled) 0 (before ++ sel ∷ after)
                      filled)))
                e
            ∙ ap (λ u. draw_caption sink (some sel) (status_strip sink u))
                (around_cursor b.cursor (start sink b filled) 0 (b.cursor - start sink b filled)
                  before sel after filled (omega arith) from_cursor),
      )

module _ {S : Type 0} (sink : PixelSink S) (h : (s : S) → sink.height s ≡ 272) where
  facets_from :
      (cursor i k : ℕ) (vals : List Str) (s : S)
      → i + k ≡ 7
      → draw_facets sink cursor i vals s ≡ draw_each sink cursor i (take k vals) s
  unfolding draw_facets draw_each
  facets_from cursor i zero [] s e = refl
  facets_from cursor i (suc k) [] s e = refl
  facets_from cursor i zero (val ∷ vals) s e = let e' : i ≡ 7 = omega arith in rw (e', h s) refl
  facets_from cursor i (suc k) (val ∷ vals) s e =
      let fits : ltb 248 (as_u16 (facet_y sink i + 28)) ≡ false = ground arith in
      rw (h s, fits)
        (facets_from cursor (i + 1) k vals (draw_facet sink cursor i val s) (omega arith))

  -- On a display of 272 rows the left display draws the first seven facet values, each of them once and in
  -- order, and no others, wherever the facet cursor is.
  pub draw_facets-take :
      (cursor : ℕ) (vals : List Str) (s : S)
      → draw_facets sink cursor 0 vals s ≡ draw_each sink cursor 0 (take 7 vals) s
  draw_facets-take cursor vals s = facets_from cursor 0 7 vals s refl
