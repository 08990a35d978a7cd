-- ===== src/Daemon/Sink/Showing.antt =====
-- What a display shows when the browser has been rendered and the frame has been sent.
use openmk.Prelude.{
  ℕ, zero, suc, ◌+◌, ◌*◌, ◌/◌, ◌<◌, ◌≡◌, ◌∙◌, refl, ap, sym, subst, some, if_true, Bool, true, ◌||◌,
  List, [], ◌∷◌, set, leb, if◌then◌else◌, Bool-cases, inl, inr, ok, arith,
}
use openmk.Proto.Types.{DisplayId, Rgb, to_rgb565, width, height}
use openmk.Proto.Types.Colour.{to_rgb565-lt_word}
use openmk.Core.Display.Dirty.{cols, rows, DirtyTracker_new, is_tile_dirty}
use openmk.Core.Display.Framebuffer.{Framebuffer, set_pixel, is_dirty}
use openmk.Core.Display.Framebuffer.Pixels.{pixel_at}
use openmk.Core.Display.Dirty.Full.{is_empty_dirty}
use openmk.Core.Display.Scheduler.{DisplayHandle, modify, notified, wake, flush}
use openmk.Core.Display.Scheduler.Flushes.{transfer, modify-flush}
use openmk.Core.Display.Scheduler.Reader.{Screen, AreWords}
use openmk.Core.Display.Scheduler.Shown.{shown, shown-transfer}
use openmk.Ui.Render.{sink_fill_rect}
use openmk.Ui.Render.Preserve.{sink_fill_rect_keeps}
use openmk.Ui.Browse.{BrowseState, bg, render}
use openmk.Ui.Browse.Preserve.{render_filled}
use openmk.Daemon.Sink.{fb_sink}
use openmk.Daemon.Sink.Rectangles.{
  AreSized, set_pixel-AreSized, is_tile_dirty-set_pixel, sink_fill_rect-Fills,
}

-- A framebuffer of 16-bit pixels, a pixel for each place of the screen.
abbrev pub IsFrame : Framebuffer → Type 0
IsFrame fb = AreSized fb × AreWords fb.pixels

-- And all its tiles are dirty.
abbrev pub IsStale : Framebuffer → Type 0
IsStale fb = IsFrame fb × ((i j : ℕ) → i < cols → j < rows → is_tile_dirty fb.dirty i j ≡ true)

AreWords-set : (ps : List ℕ) (k v : ℕ) → v < 65536 → AreWords ps → AreWords (set ps k v)
AreWords-set [] k v h w j = w j
AreWords-set (p ∷ ps) zero v h w zero = h
AreWords-set (p ∷ ps) zero v h w (suc j) = w (suc j)
AreWords-set (p ∷ ps) (suc k) v h w zero = w zero
AreWords-set (p ∷ ps) (suc k) v h w (suc j) = AreWords-set ps k v h (λ m. w (suc m)) j

set_pixel-IsFrame :
    (fb : Framebuffer) (x y : ℕ) (c : Rgb) → IsFrame fb → IsFrame (set_pixel fb x y c)
unfolding set_pixel
set_pixel-IsFrame fb x y c v = (
  set_pixel-AreSized fb x y c v.0,
  elim (Bool-cases (leb width x || leb height y)) [
    | inl outside ↦ rw outside v.1
    | inr inside ↦
        rw inside (AreWords-set fb.pixels (y * width + x) (to_rgb565 c) (to_rgb565-lt_word c) v.1)
  ],
)

set_pixel-IsStale :
    (fb : Framebuffer) (x y : ℕ) (c : Rgb) → IsStale fb → IsStale (set_pixel fb x y c)
set_pixel-IsStale fb x y c v = (
  set_pixel-IsFrame fb x y c v.0,
  λ i j p q. rw (is_tile_dirty-set_pixel fb x y c i j v.0.0, v.1 i j p q) refl,
)

filled-IsStale :
    (fb : Framebuffer) → IsFrame fb → IsStale (sink_fill_rect fb_sink fb 0 0 width height bg)
filled-IsStale fb v =
    let fills = sink_fill_rect-Fills fb 0 0 width height bg v.0 in
    (
      sink_fill_rect_keeps fb_sink IsFrame
          (unfold fb_sink in λ s x y c t. set_pixel-IsFrame s x y c t) fb 0 0 width height bg v,
      λ i j p q. fills.marks i j ∙ ground arith,
    )

pub render-IsStale :
    (b : BrowseState) (which : DisplayId) (fb : Framebuffer)
    → IsFrame fb
    → IsStale (render fb_sink b which fb)
render-IsStale b which fb v =
    render_filled fb_sink IsStale (unfold fb_sink in λ s x y c t. set_pixel-IsStale s x y c t) b
      which fb (unfold fb_sink in filled-IsStale fb v)

module _ {Wire : Type 0} (write_display : List ℕ → Wire → Bool × Wire) where
  flushed_shows :
      (b : BrowseState) (which : DisplayId) (h woken : DisplayHandle) (s : Screen) (i j : ℕ)
      → IsStale (render fb_sink b which h.fb)
      → woken.fb ≡ render fb_sink b which h.fb
      → i < width
      → j < height
      → shown (transfer woken) s i j ≡ pixel_at (render fb_sink b which h.fb) i j
  flushed_shows b which h woken s i j stale same p q =
      shown-transfer woken s i j (subst (λ fb. AreWords fb.pixels) (sym same) stale.0.1)
      ∙ ap (λ fb. if is_tile_dirty fb.dirty (i / 16) (j / 16) then pixel_at fb i j else s i j) same
      ∙ ap (λ (d : Bool). if d then pixel_at (render fb_sink b which h.fb) i j else s i j)
          (stale.1 (i / 16) (j / 16) (omega arith) (omega arith))

  -- When the browser is rendered on a display's framebuffer, the wait of the display's task ends by the
  -- notification; the flush that follows does not panic, writes one transfer, and leaves no tile dirty;
  -- and a display that reads its bytes as they are laid out shows afterwards every pixel of the rendered
  -- framebuffer, whatever it showed before and whichever tiles were dirty. Conditions: the framebuffer
  -- has a pixel of 16 bits for each place of the screen, and its tracker eight words.
  pub shown-render :
      (b : BrowseState) (which : DisplayId) (h : DisplayHandle) (t : Wire) (s : Screen)
      → IsFrame h.fb
      → let fb' = render fb_sink b which h.fb in
        (woken : DisplayHandle) × (bytes : List ℕ) × (wake notified
            (modify (render fb_sink b which) h)
          ≡ some woken)
        × (flush write_display woken t
            ≡ ok (
              record woken { fb = record fb' { dirty = DirtyTracker_new } },
              (write_display bytes t).1,
            ))
        × ((i j : ℕ) → i < width → j < height → shown bytes s i j ≡ pixel_at fb' i j)
  shown-render b which h t s v =
      let stale = render-IsStale b which h.fb v in
      let (woken, ends, same, again, flushes) =
        modify-flush write_display (render fb_sink b which) h t stale.0.0.0 in
      let dirty : is_dirty (render fb_sink b which h.fb) ≡ true =
        unfold is_dirty in
        rw (is_empty_dirty _ 0 0 (stale.1 0 0 (omega arith) (omega arith))) refl in
      (
        woken,
        transfer woken,
        ends,
        flushes ∙ if_true _ _ _ dirty,
        λ i j p q. flushed_shows b which h woken s i j stale same p q,
      )
