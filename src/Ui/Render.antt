-- ===== src/Ui/Render.antt =====
-- crates/maschine-ui/src/render.rs: drawing through a generic pixel writer. Coordinates are 16-bit.
pub mod Preserve
pub mod Related
use openmk.Prelude.{
  ℕ, zero, suc, ◌+◌, ◌-◌, ◌%◌, min, List, [], ◌∷◌, ltb, ◌==◌, ◌||◌, if◌then◌else◌, as_u16, shr,
}
use openmk.Proto.Types.{Rgb}
use openmk.Ui.Font.{char_w, char_h, glyph}

-- The required methods of the trait; `S` is what the writer draws on.
pub record PixelSink (S : Type 0) : Type 0 where
  pub width : S → ℕ
  pub height : S → ℕ
  pub set : S → ℕ → ℕ → Rgb → S

-- `u16::saturating_add`
abbrev pub saturating_add : ℕ → ℕ → ℕ
saturating_add a b = min (a + b) 65535

-- `a - b` on 16-bit words
abbrev pub sub_u16 : ℕ → ℕ → ℕ
sub_u16 a b = as_u16 (a + 65536 - b)

module _ {S : Type 0} (sink : PixelSink S) where
  -- The loop over a row: `n` pixels from `xx` on.
  unfoldable pub sink_fill_row : S → ℕ → ℕ → ℕ → Rgb → S
  sink_fill_row s xx zero yy c = s
  sink_fill_row s xx (suc n) yy c = sink_fill_row (sink.set s xx yy c) (xx + 1) n yy c

  -- The loop over `m` rows from `yy` on.
  unfoldable pub sink_fill_rows : S → ℕ → ℕ → ℕ → ℕ → Rgb → S
  sink_fill_rows s yy zero x n c = s
  sink_fill_rows s yy (suc m) x n c = sink_fill_rows (sink_fill_row s x n yy c) (yy + 1) m x n c

  unfoldable pub sink_fill_rect : S → ℕ → ℕ → ℕ → ℕ → Rgb → S
  sink_fill_rect s x y w h c =
      sink_fill_rows s y (saturating_add y h - y) x (saturating_add x w - x) c

  -- The loop over the upper and the lower side.
  unfoldable pub outline_sides : S → ℕ → ℕ → ℕ → ℕ → Rgb → S
  outline_sides s xx zero y h c = s
  outline_sides s xx (suc n) y h c =
      outline_sides (sink.set (sink.set s xx y c) xx (sub_u16 (as_u16 (y + h)) 1) c) (xx + 1) n y h
        c

  -- The loop over the left and the right side.
  unfoldable pub outline_flanks : S → ℕ → ℕ → ℕ → ℕ → Rgb → S
  outline_flanks s yy zero x w c = s
  outline_flanks s yy (suc n) x w c =
      outline_flanks (sink.set (sink.set s x yy c) (sub_u16 (as_u16 (x + w)) 1) yy c) (yy + 1) n x w
        c

  unfoldable pub outline_rect : S → ℕ → ℕ → ℕ → ℕ → Rgb → S
  outline_rect s x y w h c =
      if (w == 0) || (h == 0)
      then s
      else outline_flanks (outline_sides s x (as_u16 (x + w) - x) y h c) y (as_u16 (y + h) - y) x w
          c

  -- The loop over the rows of a column, from `row` on; `n` rows are left.
  unfoldable pub draw_column : S → ℕ → ℕ → ℕ → ℕ → ℕ → Rgb → S
  draw_column s x y bits row zero color = s
  draw_column s x y bits row (suc n) color =
      draw_column (if shr bits row % 2 == 1 then sink.set s x (as_u16 (y + row)) color else s) x y
        bits (row + 1) n color

  -- The loop over the columns of a glyph, from column `col` on.
  unfoldable pub draw_glyph : S → ℕ → ℕ → ℕ → List ℕ → Rgb → S
  draw_glyph s x y col [] color = s
  draw_glyph s x y col (bits ∷ g) color =
      draw_glyph (draw_column s (as_u16 (x + col)) y bits 0 char_h color) x y (col + 1) g color

  -- Returns where the text ends.
  unfoldable pub draw_text : S → ℕ → ℕ → List ℕ → Rgb → ℕ × S
  draw_text s x y [] color = (x, s)
  draw_text s x y (ch ∷ text) color =
      if ltb (sink.width s) (as_u16 (x + char_w))
      then (x, s)
      else draw_text (draw_glyph s x y 0 (glyph ch) color) (as_u16 (x + char_w)) y text color
