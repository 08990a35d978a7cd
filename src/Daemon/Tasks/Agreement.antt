-- ===== src/Daemon/Tasks/Agreement.antt =====
-- What holds of one display at any time: its framebuffer is a rendering of the browser, and it shows the
-- framebuffer save in dirty tiles.
use openmk.Prelude.{
  ℕ, ◌/◌, ◌<◌, ◌≡◌, ◌∙◌, ◌⊎◌, refl, sym, subst, inl, inr, Bool, true, false, Option, some, none, ok,
  if◌then◌else◌, Bool-cases, arith,
}
use openmk.Proto.Types.{DisplayId, width, height}
use openmk.Core.Display.Dirty.{is_tile_dirty}
use openmk.Core.Display.Dirty.Full.{is_empty_dirty}
use openmk.Core.Display.Framebuffer.{Framebuffer, Framebuffer_new, is_dirty}
use openmk.Core.Display.Framebuffer.Pixels.{pixel_at}
use openmk.Core.Display.Scheduler.{DisplayHandle, Wake, notified, tick, wake}
use openmk.Core.Display.Scheduler.Flushes.{flush_dirty, flush_clean}
use openmk.Core.Display.Scheduler.Reader.{Screen}
use openmk.Core.Display.Scheduler.Shown.{shown-transfer}
use openmk.Ui.Browse.{BrowseState, render}
use openmk.Daemon.Sink.{fb_sink}
use openmk.Daemon.Sink.Showing.{IsFrame, render-IsStale}
use openmk.Daemon.Sink.Redrawn.{IsRendering, Framebuffer_new-IsFrame, pixel_at-render}
use openmk.Daemon.Tasks.{show_bytes, flush_screen}

-- The browser may be ahead of the framebuffers while a repaint is due.
pub record IsCurrent (due : Bool) (b : BrowseState) (which : DisplayId) (fb : Framebuffer)
    (s : Screen) : Type 0 where
  pub frame : IsFrame fb
  pub drawn : due ≡ false → IsRendering b which (pixel_at fb)
  pub pending :
      (i j : ℕ)
      → i < width
      → j < height
      → (s i j ≡ pixel_at fb i j) ⊎ (is_tile_dirty fb.dirty (i / 16) (j / 16) ≡ true)

pub render-IsCurrent :
    (due : Bool) (b : BrowseState) (which : DisplayId) (fb : Framebuffer) (s : Screen)
    → IsFrame fb
    → IsCurrent due b which (render fb_sink b which fb) s
render-IsCurrent due b which fb s v =
    let stale = render-IsStale b which fb v in
    record {
      frame = stale.0;
      drawn = λ e i j p q.
          pixel_at-render b which fb Framebuffer_new i j v.0 Framebuffer_new-IsFrame.0 p q;
      pending = λ i j p q. inr (stale.1 (i / 16) (j / 16) (omega arith) (omega arith));
    }

-- A change of the browser alone, if it makes a repaint due or is none.
pub change-IsCurrent :
    (due due' : Bool) (b b' : BrowseState) (which : DisplayId) (fb : Framebuffer) (s : Screen)
    → IsCurrent due b which fb s
    → (due' ≡ false → (due ≡ false) × (b' ≡ b))
    → IsCurrent due' b' which fb s
change-IsCurrent due due' b b' which fb s v k = record {
  frame = v.frame;
  drawn = λ e.
      let (idle, same) = k e in
      subst (λ c. IsRendering c which (pixel_at fb)) (sym same) (v.drawn idle);
  pending = v.pending;
}

-- The framebuffer after a wait.
abbrev pub OnSome {ℓ} : {A : Type ℓ} → (A → Type 0) → Option A → Type 0
OnSome P none = Unit
OnSome P (some a) = P a

pub wake_fb : (w : Wake) (h : DisplayHandle) → OnSome (λ h'. h'.fb ≡ h.fb) (wake w h)
unfolding wake
wake_fb notified h = by_permit h.notify
  where
    by_permit :
        (b : Bool)
        → OnSome (λ h'. h'.fb ≡ h.fb) (if b then some (record h { notify = false }) else none)
    by_permit true = refl
    by_permit false = tt
wake_fb tick h = refl

-- A flush ends, and the display then shows the framebuffer.
pub record IsFlushed (due : Bool) (b : BrowseState) (which : DisplayId) (r : DisplayHandle × Screen)
    : Type 0 where
  pub current : IsCurrent due b which r.0.fb r.1
  pub shows : due ≡ false → IsRendering b which r.1

exact-IsFlushed :
    (due : Bool) (b : BrowseState) (which : DisplayId) (h : DisplayHandle) (s : Screen)
    → IsFrame h.fb
    → (due ≡ false → IsRendering b which (pixel_at h.fb))
    → ((i j : ℕ) → i < width → j < height → s i j ≡ pixel_at h.fb i j)
    → IsFlushed due b which (h, s)
exact-IsFlushed due b which h s v same exact = record {
  current = record { frame = v; drawn = same; pending = λ i j p q. inl (exact i j p q) };
  shows = λ e i j p q. exact i j p q ∙ same e i j p q;
}

caught_up : (d : Bool) (s p : ℕ) → (s ≡ p) ⊎ (d ≡ true) → (if d then p else s) ≡ p
caught_up true s p h = refl
caught_up false s p (inl e) = e
caught_up false s p (inr e) = absurd (ground arith)

pub flush_screen-IsFlushed :
    (due : Bool) (b : BrowseState) (which : DisplayId) (h : DisplayHandle) (s : Screen)
    → IsCurrent due b which h.fb s
    → (r : DisplayHandle × Screen) × (flush_screen h s ≡ ok r) × IsFlushed due b which r
unfolding flush_screen is_dirty
flush_screen-IsFlushed due b which h s v = elim (Bool-cases (is_dirty h.fb)) [
  | inl dirty ↦ (
    _,
    flush_dirty show_bytes h s v.frame.0.0 dirty,
    exact-IsFlushed due b which _ _ ((v.frame.0.0, refl), v.frame.1) v.drawn
        (λ i j p q.
          shown-transfer h s i j v.frame.1
          ∙ caught_up (is_tile_dirty h.fb.dirty (i / 16) (j / 16)) (s i j) (pixel_at h.fb i j)
              (v.pending i j p q)),
  )
  | inr clean ↦ (
    _,
    flush_clean show_bytes h s clean,
    exact-IsFlushed due b which h s v.frame v.drawn (λ i j p q. elim (v.pending i j p q) [
      | inl same ↦ same
      | inr waits ↦
          absurd (ground (arith, is_empty_dirty h.fb.dirty (i / 16) (j / 16) waits, clean))
    ]),
  )
]
