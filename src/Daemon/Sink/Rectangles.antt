-- ===== src/Daemon/Sink/Rectangles.antt =====
-- Rectangles drawn pixel by pixel.
use openmk.Prelude.{
  ℕ, zero, suc, ◌+◌, ◌-◌, ◌*◌, ◌/◌, ◌<◌, ◌≡◌, ◌∙◌, ap, inl, inr, Bool, ◌&&◌, ◌||◌, length,
  length-set, ltb, leb, ◌==◌, if◌then◌else◌, Bool-cases, arith,
}
use openmk.Proto.Types.{Rgb, to_rgb565, width, height}
use openmk.Core.Display.Dirty.{cols, rows, is_tile_dirty, mark_pixel}
use openmk.Core.Display.Dirty.Tiles.{IsSized, meets, is_tile_dirty-mark_tile, mark_tile-IsSized}
use openmk.Core.Display.Framebuffer.{Framebuffer, set_pixel, fill_rect}
use openmk.Core.Display.Framebuffer.Pixels.{
  pixel_at, in_rect, pixel_at-set_pixel, pixel_at-fill_rect, is_tile_dirty-fill_rect,
}
use openmk.Ui.Render.{saturating_add, sink_fill_row, sink_fill_rows, sink_fill_rect}
use openmk.Daemon.Sink.{fb_sink}

-- A pixel for each place of the screen, and eight words of tiles.
abbrev pub AreSized : Framebuffer → Type 0
AreSized fb = (length fb.pixels ≡ width * height) × IsSized fb.dirty

pub set_pixel-AreSized :
    (fb : Framebuffer) (x y : ℕ) (c : Rgb) → AreSized fb → AreSized (set_pixel fb x y c)
unfolding set_pixel mark_pixel
set_pixel-AreSized fb x y c v = elim (Bool-cases (leb width x || leb height y)) [
  | inl outside ↦ rw outside v
  | inr inside ↦ rw inside (length-set fb.pixels _ _ ∙ v.0, mark_tile-IsSized fb.dirty _ _ v.1)
]

pub is_tile_dirty-set_pixel :
    (fb : Framebuffer) (x y : ℕ) (c : Rgb) (i j : ℕ)
    → AreSized fb
    → is_tile_dirty (set_pixel fb x y c).dirty i j ≡ (
        is_tile_dirty fb.dirty i j
        || (ltb x width && ltb y height && (x / 16 == i) && (y / 16 == j)))
unfolding set_pixel mark_pixel
is_tile_dirty-set_pixel fb x y c i j v = elim (Bool-cases (leb width x || leb height y)) [
  | inl outside ↦ rw outside (ground arith)
  | inr inside ↦ rw inside (
      is_tile_dirty-mark_tile fb.dirty (x / 16) (y / 16) i j v.1
      ∙ ap (λ b. is_tile_dirty fb.dirty i j || b) (ground arith))
]

-- The pixels of the screen in a rectangle take a colour, the others stay, and the tiles of the screen
-- that have a pixel of it are dirty besides those that were before.
pub record Fills (x n y m : ℕ) (c : Rgb) (fb fb' : Framebuffer) : Type 0 where
  pub sized : AreSized fb'
  pub paints :
      (i j : ℕ)
      → i < width
      → j < height
      → pixel_at fb' i j ≡ (if in_rect x y n m i j then to_rgb565 c else pixel_at fb i j)
  pub marks :
      (i j : ℕ)
      → is_tile_dirty fb'.dirty i j
        ≡ (is_tile_dirty fb.dirty i j || (ltb i cols && ltb j rows && meets i x n && meets j y m))

row_paints :
    (x n y i j a p : ℕ)
    → (if in_rect (x + 1) y n 1 i j then a else (if (x == i) && (y == j) then a else p))
      ≡ (if in_rect x y (suc n) 1 i j then a else p)
row_paints x n y i j a p = ground arith

row_marks :
    (x n y i j : ℕ) (d : Bool)
    → ((d || (ltb x width && ltb y height && (x / 16 == i) && (y / 16 == j)))
        || (ltb i cols && ltb j rows && meets i (x + 1) n && meets j y 1))
      ≡ (d || (ltb i cols && ltb j rows && meets i x (suc n) && meets j y 1))
row_marks x n y i j d = ground arith

pixel-Fills :
    (fb fb' : Framebuffer) (x n y : ℕ) (c : Rgb)
    → AreSized fb
    → Fills (x + 1) n y 1 c (set_pixel fb x y c) fb'
    → Fills x (suc n) y 1 c fb fb'
pixel-Fills fb fb' x n y c v later = record {
  sized = later.sized;
  paints = λ i j p q.
      later.paints i j p q
      ∙ rw (pixel_at-set_pixel fb x y c i j v.0 p q)
          (row_paints x n y i j (to_rgb565 c) (pixel_at fb i j));
  marks = λ i j.
      later.marks i j
      ∙ rw (is_tile_dirty-set_pixel fb x y c i j v)
          (row_marks x n y i j (is_tile_dirty fb.dirty i j));
}

fill_row-Fills :
    (fb : Framebuffer) (x n y : ℕ) (c : Rgb)
    → AreSized fb
    → Fills x n y 1 c fb (sink_fill_row fb_sink fb x n y c)
unfolding sink_fill_row fb_sink
fill_row-Fills fb x zero y c v = record {
  sized = v;
  paints = λ i j p q. ground arith;
  marks = λ i j. ground arith;
}
fill_row-Fills fb x (suc n) y c v =
    pixel-Fills fb _ x n y c v
      (fill_row-Fills (set_pixel fb x y c) (x + 1) n y c (set_pixel-AreSized fb x y c v))

rows_paint :
    (x n y m i j a p : ℕ)
    → (if in_rect x (y + 1) n m i j then a else (if in_rect x y n 1 i j then a else p))
      ≡ (if in_rect x y n (suc m) i j then a else p)
rows_paint x n y m i j a p = ground arith

rows_mark :
    (x n y m i j : ℕ) (d : Bool)
    → ((d || (ltb i cols && ltb j rows && meets i x n && meets j y 1))
        || (ltb i cols && ltb j rows && meets i x n && meets j (y + 1) m))
      ≡ (d || (ltb i cols && ltb j rows && meets i x n && meets j y (suc m)))
rows_mark x n y m i j d = ground arith

row-Fills :
    (fb fb₁ fb' : Framebuffer) (y m x n : ℕ) (c : Rgb)
    → Fills x n y 1 c fb fb₁
    → Fills x n (y + 1) m c fb₁ fb'
    → Fills x n y (suc m) c fb fb'
row-Fills fb fb₁ fb' y m x n c first later = record {
  sized = later.sized;
  paints = λ i j p q.
      later.paints i j p q
      ∙ rw (first.paints i j p q) (rows_paint x n y m i j (to_rgb565 c) (pixel_at fb i j));
  marks = λ i j.
      later.marks i j ∙ rw (first.marks i j) (rows_mark x n y m i j (is_tile_dirty fb.dirty i j));
}

fill_rows-Fills :
    (fb : Framebuffer) (y m x n : ℕ) (c : Rgb)
    → AreSized fb
    → Fills x n y m c fb (sink_fill_rows fb_sink fb y m x n c)
unfolding sink_fill_rows
fill_rows-Fills fb y zero x n c v = record {
  sized = v;
  paints = λ i j p q. ground arith;
  marks = λ i j. ground arith;
}
fill_rows-Fills fb y (suc m) x n c v =
    let first = fill_row-Fills fb x n y c v in
    row-Fills fb _ _ y m x n c first
      (fill_rows-Fills (sink_fill_row fb_sink fb x n y c) (y + 1) m x n c first.sized)

pub sink_fill_rect-Fills :
    (fb : Framebuffer) (x y w h : ℕ) (c : Rgb)
    → AreSized fb
    → Fills x
        (saturating_add x w - x)
        y
        (saturating_add y h - y)
        c
        fb
        (sink_fill_rect fb_sink fb x y w h c)
unfolding sink_fill_rect
sink_fill_rect-Fills fb x y w h c v =
    fill_rows-Fills fb y (saturating_add y h - y) x (saturating_add x w - x) c v

-- A rectangle drawn through the adapter, pixel by pixel, leaves on the screen what the framebuffer's
-- own filling of the rectangle leaves: the same pixels and the same dirty tiles.
pub sink_fill_rect-fill_rect :
    (fb : Framebuffer) (x y w h : ℕ) (c : Rgb) (i j : ℕ)
    → AreSized fb
    → i < width
    → j < height
    → (pixel_at (sink_fill_rect fb_sink fb x y w h c) i j ≡ pixel_at (fill_rect fb x y w h c) i j)
      × (is_tile_dirty (sink_fill_rect fb_sink fb x y w h c).dirty (i / 16) (j / 16)
          ≡ is_tile_dirty (fill_rect fb x y w h c).dirty (i / 16) (j / 16))
sink_fill_rect-fill_rect fb x y w h c i j v p q = (
  (sink_fill_rect-Fills fb x y w h c v).paints i j p q
      ∙ rw (pixel_at-fill_rect fb x y w h c i j v.0 p q) (ground arith),
  (sink_fill_rect-Fills fb x y w h c v).marks (i / 16) (j / 16)
      ∙ rw (is_tile_dirty-fill_rect fb x y w h c (i / 16) (j / 16) v.1) (ground arith),
)
