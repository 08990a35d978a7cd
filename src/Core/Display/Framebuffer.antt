-- ===== src/Core/Display/Framebuffer.antt =====
-- crates/maschine-core/src/display/framebuffer.rs: the pixels of one display, in native byte order,
-- and the tiles to send. The pixel list keeps its 480 * 272 entries, and the operations reach no
-- others.
pub mod Pixels
use openmk.Prelude.{
  ℕ, zero, suc, ◌+◌, ◌-◌, ◌*◌, min, Bool, not, ◌||◌, List, map, set, replicate, leb, ◌==◌,
  if◌then◌else◌, as_u16,
}
use openmk.Proto.Types.{Rgb, to_rgb565, width, height}
use openmk.Core.Display.Dirty.{
  DirtyTracker, DirtyTracker_new, mark_full, mark_pixel, mark_rect, is_empty,
}

pub record Framebuffer : Type 0 where
  pub pixels : List ℕ
  pub dirty : DirtyTracker

unfoldable pub Framebuffer_new : Framebuffer
Framebuffer_new = record { pixels = replicate (width * height) 0; dirty = DirtyTracker_new }

unfoldable pub is_dirty : Framebuffer → Bool
is_dirty fb = not (is_empty fb.dirty)

unfoldable pub clear : Framebuffer → Rgb → Framebuffer
clear fb color =
    let v = to_rgb565 color in
    record { pixels = map (λ p. v) fb.pixels; dirty = mark_full fb.dirty }

unfoldable pub set_pixel : Framebuffer → ℕ → ℕ → Rgb → Framebuffer
set_pixel fb x y c = if leb width x || leb height y then fb else record {
  pixels = set fb.pixels (y * width + x) (to_rgb565 c);
  dirty = mark_pixel fb.dirty x y;
}

unfoldable pub touch : Framebuffer → ℕ → ℕ → ℕ → ℕ → Framebuffer
touch fb x y w h = record fb { dirty = mark_rect fb.dirty x y w h }

-- The loop over a row: `n` pixels from index `i` on.
unfoldable pub fill_span : List ℕ → ℕ → ℕ → ℕ → List ℕ
fill_span pixels i zero v = pixels
fill_span pixels i (suc n) v = fill_span (set pixels i v) (i + 1) n v

-- The loop over `m` rows from `y` on.
unfoldable pub fill_rows : List ℕ → ℕ → ℕ → ℕ → ℕ → ℕ → List ℕ
fill_rows pixels y zero x n v = pixels
fill_rows pixels y (suc m) x n v = fill_rows (fill_span pixels (y * width + x) n v) (y + 1) m x n v

unfoldable pub fill_rect : Framebuffer → ℕ → ℕ → ℕ → ℕ → Rgb → Framebuffer
fill_rect fb x y w h c =
    let x0 = min x width in
    let y0 = min y height in
    let x1 = min (x0 + w) width in
    let y1 = min (y0 + h) height in
    let v = to_rgb565 c in
    if (x0 == x1) || (y0 == y1) then fb else record {
      pixels = fill_rows fb.pixels y0 (y1 - y0) x0 (x1 - x0) v;
      dirty = mark_rect fb.dirty (as_u16 x0) (as_u16 y0) (as_u16 (x1 - x0)) (as_u16 (y1 - y0));
    }
