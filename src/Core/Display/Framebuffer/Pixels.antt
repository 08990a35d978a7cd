-- ===== src/Core/Display/Framebuffer/Pixels.antt =====
-- Which pixels a drawing operation changes, and which tiles it marks.
use openmk.Prelude.{
  ℕ, zero, suc, ◌+◌, ◌-◌, ◌*◌, ◌%◌, ◌≤◌, ◌<◌, ◌≡◌, ◌∙◌, refl, ap, min, inl, inr, Bool, ◌&&◌, ◌||◌,
  List, length, length-set, get_or, set, get_or-set_self, get_or-set_ne, ltb, leb, ◌==◌,
  if◌then◌else◌, Bool-cases, ==_iff, arith,
}
use openmk.Proto.Types.{Rgb, to_rgb565, width, height}
use openmk.Core.Display.Dirty.{cols, rows, is_tile_dirty}
use openmk.Core.Display.Dirty.Tiles.{IsSized, meets, is_tile_dirty-mark_rect}
use openmk.Core.Display.Dirty.Full.{IsTracker, mark_rect-IsTracker}
use openmk.Core.Display.Framebuffer.{Framebuffer, set_pixel, fill_span, fill_rows, fill_rect}

-- A pixel for each place of the screen.
pub record IsFramebuffer (fb : Framebuffer) : Type 0 where
  pub pixels_sized : length fb.pixels ≡ width * height
  pub tracker : IsTracker fb.dirty

abbrev pub pixel_at : Framebuffer → ℕ → ℕ → ℕ
pixel_at fb i j = get_or fb.pixels (j * width + i) 0

length-fill_span : (ps : List ℕ) (i n v : ℕ) → length (fill_span ps i n v) ≡ length ps
unfolding fill_span
length-fill_span ps i zero v = refl
length-fill_span ps i (suc n) v = length-fill_span (set ps i v) (i + 1) n v ∙ length-set ps i v

length-fill_rows : (ps : List ℕ) (y m x n v : ℕ) → length (fill_rows ps y m x n v) ≡ length ps
unfolding fill_rows
length-fill_rows ps y zero x n v = refl
length-fill_rows ps y (suc m) x n v =
    length-fill_rows (fill_span ps (y * width + x) n v) (y + 1) m x n v
    ∙ length-fill_span ps (y * width + x) n v

get_or-set :
    (ps : List ℕ) (i k v : ℕ)
    → k < length ps
    → get_or (set ps i v) k 0 ≡ (if i == k then v else get_or ps k 0)
get_or-set ps i k v h = elim (Bool-cases (i == k)) [
  | inl same ↦ rw same (rw ((==_iff i k).0 same) (get_or-set_self ps k v 0 h))
  | inr other ↦ rw other (get_or-set_ne ps i k v 0 (ground arith))
]

get_or-fill_span :
    (ps : List ℕ) (i n v k : ℕ)
    → k < length ps
    → get_or (fill_span ps i n v) k 0 ≡ (if leb i k && ltb k (i + n) then v else get_or ps k 0)
unfolding fill_span
get_or-fill_span ps i zero v k h = ground arith
get_or-fill_span ps i (suc n) v k h =
    get_or-fill_span (set ps i v) (i + 1) n v k (omega (arith, length-set ps i v))
    ∙ rw (get_or-set ps i k v h) (ground arith)

get_or-fill_rows :
    (ps : List ℕ) (y m x n v i j : ℕ)
    → x + n ≤ width
    → i < width
    → j * width + i < length ps
    → get_or (fill_rows ps y m x n v) (j * width + i) 0 ≡ (
        if leb x i && ltb i (x + n) && leb y j && ltb j (y + m)
        then v
        else get_or ps (j * width + i) 0)
unfolding fill_rows
get_or-fill_rows ps y zero x n v i j p q h = ground arith
get_or-fill_rows ps y (suc m) x n v i j p q h =
    get_or-fill_rows (fill_span ps (y * width + x) n v) (y + 1) m x n v i j p q
      (omega (arith, length-fill_span ps (y * width + x) n v))
    ∙ rw (get_or-fill_span ps (y * width + x) n v (j * width + i) h) (ground arith)

-- Pixel (i, j) is on the screen and in the rectangle.
abbrev pub in_rect : ℕ → ℕ → ℕ → ℕ → ℕ → ℕ → Bool
in_rect x y w h i j = leb x i && ltb i (x + w) && leb y j && ltb j (y + h)

-- After a rectangle is filled the pixels of the screen in it have the packed colour, and the others
-- are as before, also where the rectangle reaches out of the screen or is empty.
pub pixel_at-fill_rect :
    (fb : Framebuffer) (x y w h : ℕ) (c : Rgb) (i j : ℕ)
    → length fb.pixels ≡ width * height
    → i < width
    → j < height
    → pixel_at (fill_rect fb x y w h c) i j
      ≡ (if in_rect x y w h i j then to_rgb565 c else pixel_at fb i j)
unfolding fill_rect
pixel_at-fill_rect fb x y w h c i j v p q = elim (Bool-cases ((x0 == x1) || (y0 == y1))) [
  | inl nothing ↦ rw nothing (ground arith)
  | inr some_pixel ↦ rw some_pixel (
      get_or-fill_rows fb.pixels y0 (y1 - y0) x0 (x1 - x0) (to_rgb565 c) i j (omega arith) p
        (omega arith)
      ∙ ap (λ (b : Bool). if b then to_rgb565 c else get_or fb.pixels (j * width + i) 0)
          (ground arith))
]
  where
    x0 : ℕ
    x0 = min x width

    x1 : ℕ
    x1 = min (x0 + w) width

    y0 : ℕ
    y0 = min y height

    y1 : ℕ
    y1 = min (y0 + h) height

-- After a rectangle is filled the tiles of the screen that have a pixel of it are dirty, and no
-- others besides those that were dirty before.
pub is_tile_dirty-fill_rect :
    (fb : Framebuffer) (x y w h : ℕ) (c : Rgb) (i j : ℕ)
    → IsSized fb.dirty
    → is_tile_dirty (fill_rect fb x y w h c).dirty i j
      ≡ (is_tile_dirty fb.dirty i j || (ltb i cols && ltb j rows && meets i x w && meets j y h))
unfolding fill_rect
is_tile_dirty-fill_rect fb x y w h c i j v = elim (Bool-cases ((x0 == x1) || (y0 == y1))) [
  | inl nothing ↦ rw nothing (ground arith)
  | inr some_pixel ↦ rw some_pixel (
      is_tile_dirty-mark_rect fb.dirty (x0 % 65536) (y0 % 65536) ((x1 - x0) % 65536)
        ((y1 - y0) % 65536) i j v
      ∙ ap (λ b. is_tile_dirty fb.dirty i j || b) (ground arith))
]
  where
    x0 : ℕ
    x0 = min x width

    x1 : ℕ
    x1 = min (x0 + w) width

    y0 : ℕ
    y0 = min y height

    y1 : ℕ
    y1 = min (y0 + h) height

-- Filling a rectangle keeps a pixel for each place of the screen and a tracker without digits that
-- stand for no tile.
pub fill_rect-IsFramebuffer :
    (fb : Framebuffer) (x y w h : ℕ) (c : Rgb)
    → IsFramebuffer fb
    → IsFramebuffer (fill_rect fb x y w h c)
unfolding fill_rect
fill_rect-IsFramebuffer fb x y w h c v =
    elim (Bool-cases (
      (min x width == min (min x width + w) width)
      || (min y height == min (min y height + h) height))) [
        | inl nothing ↦ rw nothing v
        | inr some_pixel ↦ rw some_pixel (record {
          pixels_sized = length-fill_rows fb.pixels _ _ _ _ _ ∙ v.pixels_sized;
          tracker = mark_rect-IsTracker fb.dirty _ _ _ _ v.tracker;
        })
      ]

-- A pixel set on the screen has the packed colour, and the others are as before; a place outside the
-- screen changes nothing.
pub pixel_at-set_pixel :
    (fb : Framebuffer) (x y : ℕ) (c : Rgb) (i j : ℕ)
    → length fb.pixels ≡ width * height
    → i < width
    → j < height
    → pixel_at (set_pixel fb x y c) i j
      ≡ (if (x == i) && (y == j) then to_rgb565 c else pixel_at fb i j)
unfolding set_pixel
pixel_at-set_pixel fb x y c i j v p q = elim (Bool-cases (leb width x || leb height y)) [
  | inl outside ↦ rw outside (ground arith)
  | inr inside ↦ rw inside (
      get_or-set fb.pixels (y * width + x) (j * width + i) (to_rgb565 c) (omega arith)
      ∙ ap (λ (b : Bool). if b then to_rgb565 c else get_or fb.pixels (j * width + i) 0)
          (ground arith))
]
