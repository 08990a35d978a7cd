-- ===== src/Daemon/Sink/Contract.antt =====
-- What the browser's rendering leaves to a flush: every pixel that it changes is in a dirty tile.
use openmk.Prelude.{
  ℕ, ◌/◌, ◌<◌, ◌≡◌, ◌⊎◌, ◌∙◌, refl, inl, inr, true, ◌&&◌, ltb, ◌==◌, if◌then◌else◌, Bool-cases,
  arith,
}
use openmk.Proto.Types.{DisplayId, Rgb, to_rgb565, width, height}
use openmk.Core.Display.Dirty.{is_tile_dirty}
use openmk.Core.Display.Framebuffer.{Framebuffer, set_pixel}
use openmk.Core.Display.Framebuffer.Pixels.{pixel_at, pixel_at-set_pixel}
use openmk.Ui.Browse.{BrowseState, render}
use openmk.Ui.Browse.Preserve.{render_keeps}
use openmk.Daemon.Sink.{fb_sink}
use openmk.Daemon.Sink.Rectangles.{AreSized, set_pixel-AreSized, is_tile_dirty-set_pixel}

-- A framebuffer that shows what an earlier one shows, save in dirty tiles.
pub record IsTouched (fb fb' : Framebuffer) : Type 0 where
  pub sized : AreSized fb'
  pub touched :
      (i j : ℕ)
      → i < width
      → j < height
      → (pixel_at fb' i j ≡ pixel_at fb i j) ⊎ (is_tile_dirty fb'.dirty (i / 16) (j / 16) ≡ true)

on_pixel :
    (x y i j a p : ℕ)
    → i < width
    → j < height
    → ((if (x == i) && (y == j) then a else p) ≡ p)
      ⊎ ((ltb x width && ltb y height && (x / 16 == i / 16) && (y / 16 == j / 16)) ≡ true)
on_pixel x y i j a p h k = elim (Bool-cases ((x == i) && (y == j))) [
  | inl same ↦ inr (ground arith)
  | inr other ↦ inl (rw other refl)
]

set_pixel-touches :
    (fb fb' : Framebuffer) (x y : ℕ) (c : Rgb) (i j : ℕ)
    → IsTouched fb fb'
    → i < width
    → j < height
    → (pixel_at (set_pixel fb' x y c) i j ≡ pixel_at fb i j)
      ⊎ (is_tile_dirty (set_pixel fb' x y c).dirty (i / 16) (j / 16) ≡ true)
set_pixel-touches fb fb' x y c i j t p q =
    rw (is_tile_dirty-set_pixel fb' x y c (i / 16) (j / 16) t.sized) (elim (t.touched i j p q) [
      | inr dirty ↦ inr (ground arith)
      | inl same ↦ elim (on_pixel x y i j (to_rgb565 c) (pixel_at fb' i j) p q) [
        | inl kept ↦ inl (pixel_at-set_pixel fb' x y c i j t.sized.0 p q ∙ kept ∙ same)
        | inr mine ↦ inr (ground arith)
      ]
    ])

set_pixel-IsTouched :
    (fb fb' : Framebuffer) (x y : ℕ) (c : Rgb)
    → IsTouched fb fb'
    → IsTouched fb (set_pixel fb' x y c)
set_pixel-IsTouched fb fb' x y c t = record {
  sized = set_pixel-AreSized fb' x y c t.sized;
  touched = λ i j p q. set_pixel-touches fb fb' x y c i j t p q;
}

-- The rendering of the browser on either display, through the adapter, keeps a pixel for each place
-- of the screen, and every pixel that it changes is in a tile that is dirty afterwards.
pub render-IsTouched :
    (b : BrowseState) (which : DisplayId) (fb : Framebuffer)
    → AreSized fb
    → IsTouched fb (render fb_sink b which fb)
render-IsTouched b which fb v =
    render_keeps fb_sink (IsTouched fb)
      (unfold fb_sink in λ s x y c t. set_pixel-IsTouched fb s x y c t) b which fb
      (record { sized = v; touched = λ i j p q. inl refl })
