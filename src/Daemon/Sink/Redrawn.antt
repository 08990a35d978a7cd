-- ===== src/Daemon/Sink/Redrawn.antt =====
-- A rendering covers the display: what the framebuffer had before is gone.
use openmk.Prelude.{
  ℕ, ◌*◌, length-replicate, ◌<◌, ◌≡◌, ◌∙◌, refl, ap, sym, true, ◌&&◌, ◌==◌, if◌then◌else◌, arith,
}
use openmk.Proto.Types.{DisplayId, Rgb, to_rgb565, width, height}
use openmk.Core.Display.Framebuffer.{Framebuffer, Framebuffer_new, set_pixel}
use openmk.Core.Display.Framebuffer.Pixels.{pixel_at, pixel_at-set_pixel, in_rect}
use openmk.Core.Display.Scheduler.Reader.{Screen, zeros-AreWords}
use openmk.Daemon.Sink.Showing.{IsFrame}
use openmk.Ui.Render.{sink_fill_rect}
use openmk.Ui.Browse.{BrowseState, bg, render}
use openmk.Ui.Browse.Related.{render_relates}
use openmk.Daemon.Sink.{fb_sink}
use openmk.Daemon.Sink.Rectangles.{AreSized, set_pixel-AreSized, sink_fill_rect-Fills}

-- Two framebuffers with the same picture.
record AreAlike (fb fb' : Framebuffer) : Type 0 where
  sized : AreSized fb
  sized' : AreSized fb'
  alike : (i j : ℕ) → i < width → j < height → pixel_at fb i j ≡ pixel_at fb' i j

set_pixel-AreAlike :
    (fb fb' : Framebuffer) (x y : ℕ) (c : Rgb)
    → AreAlike fb fb'
    → AreAlike (set_pixel fb x y c) (set_pixel fb' x y c)
set_pixel-AreAlike fb fb' x y c v = record {
  sized = set_pixel-AreSized fb x y c v.sized;
  sized' = set_pixel-AreSized fb' x y c v.sized';
  alike = λ i j p q.
      pixel_at-set_pixel fb x y c i j v.sized.0 p q
      ∙ ap (λ n. if (x == i) && (y == j) then to_rgb565 c else n) (v.alike i j p q)
      ∙ sym (pixel_at-set_pixel fb' x y c i j v.sized'.0 p q);
}

filled_lem :
    (fb : Framebuffer) (i j : ℕ)
    → AreSized fb
    → i < width
    → j < height
    → pixel_at (sink_fill_rect fb_sink fb 0 0 width height bg) i j ≡ to_rgb565 bg
filled_lem fb i j v p q =
    let inside : in_rect 0 0 width height i j ≡ true = ground arith in
    (sink_fill_rect-Fills fb 0 0 width height bg v).paints i j p q ∙ rw inside refl

filled-AreAlike :
    (fb fb' : Framebuffer)
    → AreSized fb
    → AreSized fb'
    → AreAlike
        (sink_fill_rect fb_sink fb 0 0 width height bg)
        (sink_fill_rect fb_sink fb' 0 0 width height bg)
filled-AreAlike fb fb' v w = record {
  sized = (sink_fill_rect-Fills fb 0 0 width height bg v).sized;
  sized' = (sink_fill_rect-Fills fb' 0 0 width height bg w).sized;
  alike = λ i j p q. filled_lem fb i j v p q ∙ sym (filled_lem fb' i j w p q);
}

-- The rendering of the browser on a display is the same picture whatever the framebuffer held before.
-- Condition: both framebuffers have a pixel for each place of the screen.
pub pixel_at-render :
    (b : BrowseState) (which : DisplayId) (fb fb' : Framebuffer) (i j : ℕ)
    → AreSized fb
    → AreSized fb'
    → i < width
    → j < height
    → pixel_at (render fb_sink b which fb) i j ≡ pixel_at (render fb_sink b which fb') i j
pixel_at-render b which fb fb' i j v w p q =
    let same =
      render_relates fb_sink AreAlike
        (unfold fb_sink in λ s t x y c h. set_pixel-AreAlike s t x y c h)
        (unfold fb_sink in λ s t. refl) (unfold fb_sink in λ s t. refl) b which fb fb'
        (unfold fb_sink in filled-AreAlike fb fb' v w) in
    same.alike i j p q

-- What a rendering of the browser on a new framebuffer has.
abbrev pub IsRendering : BrowseState → DisplayId → Screen → Type 0
IsRendering b which s =
    (i j : ℕ)
    → i < width
    → j < height
    → s i j ≡ pixel_at (render fb_sink b which Framebuffer_new) i j

pub Framebuffer_new-IsFrame : IsFrame Framebuffer_new
unfolding Framebuffer_new
Framebuffer_new-IsFrame =
    ((length-replicate {A = ℕ} (width * height) 0, refl), zeros-AreWords (width * height))

-- A rendering is the one on a new framebuffer.
pub render-IsRendering :
    (b : BrowseState) (which : DisplayId) (fb : Framebuffer)
    → AreSized fb
    → IsRendering b which (pixel_at (render fb_sink b which fb))
render-IsRendering b which fb v i j p q =
    pixel_at-render b which fb Framebuffer_new i j v Framebuffer_new-IsFrame.0 p q
