-- ===== src/Ui/Render/Related.antt =====
-- What every pixel write keeps of two pictures, every drawing operation keeps of them.
use openmk.Prelude.{
  ℕ, zero, suc, ◌+◌, ◌%◌, ◌≡◌, Bool, List, [], ◌∷◌, ltb, ◌==◌, if◌then◌else◌, as_u16, shr,
  Bool-cases, inl, inr, true, false,
}
use openmk.Proto.Types.{Rgb}
use openmk.Ui.Font.{char_w, char_h, glyph}
use openmk.Ui.Render.{
  PixelSink, sink_fill_row, sink_fill_rows, sink_fill_rect, draw_column, draw_glyph, draw_text,
}

module _ {S : Type 0} (sink : PixelSink S) (R : S → S → Type 0)
    (set_relates : (s t : S) (x y : ℕ) (c : Rgb)
      → R s t
      → R (sink.set s x y c) (sink.set t x y c)) where
  pub if_relates :
      (b : Bool) (s t u v : S) → R s t → R u v → R (if b then s else u) (if b then t else v)
  if_relates true s t u v p q = p
  if_relates false s t u v p q = q

  sink_fill_row_relates :
      (s t : S) (xx n yy : ℕ) (c : Rgb)
      → R s t
      → R (sink_fill_row sink s xx n yy c) (sink_fill_row sink t xx n yy c)
  unfolding sink_fill_row
  sink_fill_row_relates s t xx zero yy c p = p
  sink_fill_row_relates s t xx (suc n) yy c p =
      sink_fill_row_relates (sink.set s xx yy c) (sink.set t xx yy c) (xx + 1) n yy c
        (set_relates s t xx yy c p)

  sink_fill_rows_relates :
      (s t : S) (yy m x n : ℕ) (c : Rgb)
      → R s t
      → R (sink_fill_rows sink s yy m x n c) (sink_fill_rows sink t yy m x n c)
  unfolding sink_fill_rows
  sink_fill_rows_relates s t yy zero x n c p = p
  sink_fill_rows_relates s t yy (suc m) x n c p =
      sink_fill_rows_relates (sink_fill_row sink s x n yy c) (sink_fill_row sink t x n yy c)
        (yy + 1) m x n c (sink_fill_row_relates s t x n yy c p)

  pub sink_fill_rect_relates :
      (s t : S) (x y w h : ℕ) (c : Rgb)
      → R s t
      → R (sink_fill_rect sink s x y w h c) (sink_fill_rect sink t x y w h c)
  unfolding sink_fill_rect
  sink_fill_rect_relates s t x y w h c p = sink_fill_rows_relates s t y _ x _ c p

  draw_column_relates :
      (s t : S) (x y bits row n : ℕ) (c : Rgb)
      → R s t
      → R (draw_column sink s x y bits row n c) (draw_column sink t x y bits row n c)
  unfolding draw_column
  draw_column_relates s t x y bits row zero c p = p
  draw_column_relates s t x y bits row (suc n) c p =
      draw_column_relates (if shr bits row % 2 == 1 then sink.set s x (as_u16 (y + row)) c else s)
        (if shr bits row % 2 == 1 then sink.set t x (as_u16 (y + row)) c else t) x y bits (row + 1)
        n c
        (if_relates (shr bits row % 2 == 1) _ _ s t (set_relates s t x (as_u16 (y + row)) c p) p)

  draw_glyph_relates :
      (s t : S) (x y col : ℕ) (g : List ℕ) (c : Rgb)
      → R s t
      → R (draw_glyph sink s x y col g c) (draw_glyph sink t x y col g c)
  unfolding draw_glyph
  draw_glyph_relates s t x y col [] c p = p
  draw_glyph_relates s t x y col (bits ∷ g) c p =
      draw_glyph_relates (draw_column sink s (as_u16 (x + col)) y bits 0 char_h c)
        (draw_column sink t (as_u16 (x + col)) y bits 0 char_h c) x y (col + 1) g c
        (draw_column_relates s t (as_u16 (x + col)) y bits 0 char_h c p)

  module _ (same_width : (s t : S) → sink.width t ≡ sink.width s) where
    pub draw_text_relates :
        (s t : S) (x y : ℕ) (text : List ℕ) (c : Rgb)
        → R s t
        → R (draw_text sink s x y text c).1 (draw_text sink t x y text c).1
    unfolding draw_text
    draw_text_relates s t x y [] c p = p
    draw_text_relates s t x y (ch ∷ text) c p =
        elim (Bool-cases (ltb (sink.width s) (as_u16 (x + char_w)))) [
          | inl stop ↦ rw (same_width s t, stop) p
          | inr go ↦
              rw (same_width s t, go)
                (draw_text_relates (draw_glyph sink s x y 0 (glyph ch) c)
                  (draw_glyph sink t x y 0 (glyph ch) c) (as_u16 (x + char_w)) y text c
                  (draw_glyph_relates s t x y 0 (glyph ch) c p))
        ]
