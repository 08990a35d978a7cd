-- ===== src/Ui/Render/Preserve.antt =====
-- What every pixel write keeps, every drawing operation keeps.
use openmk.Prelude.{
  ℕ, zero, suc, ◌+◌, ◌%◌, Bool, List, [], ◌∷◌, ltb, ◌==◌, if◌then◌else◌, as_u16, shr, Bool-cases,
  inl, inr, true, false,
}
use openmk.Proto.Types.{Rgb}
use openmk.Ui.Font.{char_w, char_h, glyph}
use openmk.Ui.Render.{
  PixelSink, sink_fill_row, sink_fill_rows, sink_fill_rect, draw_column, draw_glyph, draw_text,
}

module _ {ℓ} {S : Type 0} (sink : PixelSink S) (P : S → Type ℓ)
    (set_keeps : (s : S) (x y : ℕ) (c : Rgb) → P s → P (sink.set s x y c)) where
  pub if_keeps : (b : Bool) (s t : S) → P s → P t → P (if b then s else t)
  if_keeps true s t p q = p
  if_keeps false s t p q = q

  sink_fill_row_keeps : (s : S) (xx n yy : ℕ) (c : Rgb) → P s → P (sink_fill_row sink s xx n yy c)
  unfolding sink_fill_row
  sink_fill_row_keeps s xx zero yy c p = p
  sink_fill_row_keeps s xx (suc n) yy c p =
      sink_fill_row_keeps (sink.set s xx yy c) (xx + 1) n yy c (set_keeps s xx yy c p)

  sink_fill_rows_keeps :
      (s : S) (yy m x n : ℕ) (c : Rgb) → P s → P (sink_fill_rows sink s yy m x n c)
  unfolding sink_fill_rows
  sink_fill_rows_keeps s yy zero x n c p = p
  sink_fill_rows_keeps s yy (suc m) x n c p =
      sink_fill_rows_keeps (sink_fill_row sink s x n yy c) (yy + 1) m x n c
        (sink_fill_row_keeps s x n yy c p)

  pub sink_fill_rect_keeps :
      (s : S) (x y w h : ℕ) (c : Rgb) → P s → P (sink_fill_rect sink s x y w h c)
  unfolding sink_fill_rect
  sink_fill_rect_keeps s x y w h c p = sink_fill_rows_keeps s y _ x _ c p

  draw_column_keeps :
      (s : S) (x y bits row n : ℕ) (c : Rgb) → P s → P (draw_column sink s x y bits row n c)
  unfolding draw_column
  draw_column_keeps s x y bits row zero c p = p
  draw_column_keeps s x y bits row (suc n) c p =
      draw_column_keeps (if shr bits row % 2 == 1 then sink.set s x (as_u16 (y + row)) c else s) x y
        bits (row + 1) n c
        (if_keeps (shr bits row % 2 == 1) (sink.set s x (as_u16 (y + row)) c) s
          (set_keeps s x (as_u16 (y + row)) c p) p)

  draw_glyph_keeps :
      (s : S) (x y col : ℕ) (g : List ℕ) (c : Rgb) → P s → P (draw_glyph sink s x y col g c)
  unfolding draw_glyph
  draw_glyph_keeps s x y col [] c p = p
  draw_glyph_keeps s x y col (bits ∷ g) c p =
      draw_glyph_keeps (draw_column sink s (as_u16 (x + col)) y bits 0 char_h c) x y (col + 1) g c
        (draw_column_keeps s (as_u16 (x + col)) y bits 0 char_h c p)

  pub draw_text_keeps :
      (s : S) (x y : ℕ) (text : List ℕ) (c : Rgb) → P s → P (draw_text sink s x y text c).1
  unfolding draw_text
  draw_text_keeps s x y [] c p = p
  draw_text_keeps s x y (ch ∷ text) c p =
      elim (Bool-cases (ltb (sink.width s) (as_u16 (x + char_w)))) [
        | inl stop ↦ rw stop p
        | inr go ↦ rw go (
            draw_text_keeps (draw_glyph sink s x y 0 (glyph ch) c) (as_u16 (x + char_w)) y text c
              (draw_glyph_keeps s x y 0 (glyph ch) c p))
      ]
