-- ===== src/Daemon/Tasks/Everywhere.antt =====
-- What the displays show after any interleaving of the daemon's tasks.
use openmk.Prelude.{ℕ, ◌≡◌, subst, sym, Bool, false, Option, List, Outcome, ok}
use openmk.Proto.Types.{left, right}
use openmk.Nks.Plid.{Str, RawPlid}
use openmk.Registry.{Registry}
use openmk.Index.Query.{PresetRow}
use openmk.Core.Display.Scheduler.{DisplayHandle, DisplayHandle_new}
use openmk.Core.Display.Scheduler.Reader.{Screen}
use openmk.Daemon.Manager.{SessionManager}
use openmk.Daemon.Ops.{initial_state, populate}
use openmk.Daemon.Tasks.{
  Daemon, start_app, flush_screen, Step, repaint_browser, browser_changes, browser_repaints,
  request, background_scan, left_wakes, right_wakes, left_flushes, right_flushes, Reach, here,
  later,
}
use openmk.Daemon.Sink.Redrawn.{IsRendering, Framebuffer_new-IsFrame}
use openmk.Daemon.Tasks.Agreement.{IsCurrent, OnSome, wake_fb, flush_screen-IsFlushed}
use openmk.Daemon.Tasks.Requests.{
  IsInStep, repaint-IsInStep, refresh-IsInStep, change_browser-IsInStep, OnOk,
  handle_uds_op-IsInStep,
}

start_app-IsInStep :
    {Error : Type 0} (rows : Outcome Error (List PresetRow)) (registry : Registry)
    (sessions : SessionManager Str) (l r : Screen)
    → IsInStep false l r (start_app rows registry sessions)
unfolding start_app DisplayHandle_new
start_app-IsInStep rows registry sessions l r =
    repaint-IsInStep false l r
      (record {
        browser = populate rows initial_state;
        registry = registry;
        sessions = sessions;
        left = DisplayHandle_new left;
        right = DisplayHandle_new right;
      })
      (populate rows initial_state) Framebuffer_new-IsFrame Framebuffer_new-IsFrame

-- Both displays of a daemon agree with its browser.
abbrev DaemonIsInStep : Daemon → Type 0
DaemonIsInStep d = IsInStep d.repaints d.left_screen d.right_screen d.app

-- What a flush returns is what it is shown to return.
abbrev Flushed : (P : DisplayHandle → Screen → Type 0) → Outcome ⊥ (DisplayHandle × Screen) → Type 0
Flushed P (ok (h, s)) = P h s
Flushed P _ = Unit

flushed :
    (P : DisplayHandle → Screen → Type 0) (h₀ : DisplayHandle) (s₀ : Screen)
    → (r : DisplayHandle × Screen) × (flush_screen h₀ s₀ ≡ ok r) × P r.0 r.1
    → (h : DisplayHandle) (s : Screen) → flush_screen h₀ s₀ ≡ ok (h, s)
    → P h s
flushed P h₀ s₀ (r, e, p) h s e' = subst (Flushed P) e' (subst (Flushed P) (sym e) p)

module _ (Value Error : Type 0) {Summary : Type 0} (decode_summary : List ℕ → Option Summary)
    (decode_plid : List ℕ → Option RawPlid) (encode_base64 : List ℕ → Str)
    (same_path : Str → Str → Bool) where
  Step-IsInStep :
      {d e : Daemon}
      → Step Value Error decode_summary decode_plid encode_base64 same_path d e
      → DaemonIsInStep d
      → DaemonIsInStep e
  Step-IsInStep {d} (browser_changes ev idle) v =
      change_browser-IsInStep d.left_screen d.right_screen ev d.app
        (subst (λ due. IsInStep due d.left_screen d.right_screen d.app) idle v)
  Step-IsInStep {d} (browser_repaints due) v =
      unfold repaint_browser in
      repaint-IsInStep false d.left_screen d.right_screen d.app d.app.browser v.left_current.frame
        v.right_current.frame
  Step-IsInStep {d}
        (request read_file starts host_load scans open_db query_map op reply app answered) v =
      subst (OnOk (IsInStep d.repaints d.left_screen d.right_screen)) answered (
        handle_uds_op-IsInStep Error decode_summary decode_plid encode_base64 same_path read_file
          starts host_load d.repaints d.left_screen d.right_screen scans open_db query_map op d.app
          v)
  Step-IsInStep {d} (background_scan rows) v =
      refresh-IsInStep d.repaints d.left_screen d.right_screen rows d.app v
  Step-IsInStep {d} (left_wakes w h woken) v =
      let same = subst (OnSome (λ h'. h'.fb ≡ d.app.left.fb)) woken (wake_fb w d.app.left) in
      record {
        left_current =
            subst (λ fb. IsCurrent d.repaints d.app.browser left fb d.left_screen) (sym same)
              v.left_current;
        right_current = v.right_current;
      }
  Step-IsInStep {d} (right_wakes w h woken) v =
      let same = subst (OnSome (λ h'. h'.fb ≡ d.app.right.fb)) woken (wake_fb w d.app.right) in
      record {
        left_current = v.left_current;
        right_current =
            subst (λ fb. IsCurrent d.repaints d.app.browser right fb d.right_screen) (sym same)
              v.right_current;
      }
  Step-IsInStep {d} (left_flushes h s ended) v =
      let (r, e, done) =
        flush_screen-IsFlushed d.repaints d.app.browser left d.app.left d.left_screen
          v.left_current in
      record {
        left_current =
            flushed (λ h s. IsCurrent d.repaints d.app.browser left h.fb s) d.app.left d.left_screen
              (r, e, done.current) h s ended;
        right_current = v.right_current;
      }
  Step-IsInStep {d} (right_flushes h s ended) v =
      let (r, e, done) =
        flush_screen-IsFlushed d.repaints d.app.browser right d.app.right d.right_screen
          v.right_current in
      record {
        left_current = v.left_current;
        right_current =
            flushed (λ h s. IsCurrent d.repaints d.app.browser right h.fb s) d.app.right
              d.right_screen (r, e, done.current) h s ended;
      }

  Reach-IsInStep :
      {d e : Daemon}
      → DaemonIsInStep d
      → Reach Value Error decode_summary decode_plid encode_base64 same_path d e
      → DaemonIsInStep e
  Reach-IsInStep v here = v
  Reach-IsInStep v (later reached st) = Step-IsInStep st (Reach-IsInStep v reached)

  -- After any interleaving of the daemon's tasks from its first repaint on, the next flush of either
  -- display does not panic, and leaves that display showing, at every pixel, what rendering the browser as
  -- it then is gives on a new framebuffer. Conditions: the task of the device's events is not between a
  -- change of the browser and its repaint, and every transfer reaches its display, which reads the bytes
  -- as they are laid out. What the displays showed at the start is arbitrary.
  pub flush_screen-Reach :
      (rows : Outcome Error (List PresetRow)) (registry : Registry) (sessions : SessionManager Str)
      (l r : Screen) (d : Daemon)
      → Reach Value Error decode_summary decode_plid encode_base64 same_path
          (record {
            app = start_app rows registry sessions;
            left_screen = l;
            repaints = false;
            right_screen = r;
          })
          d
      → d.repaints ≡ false
      → ((h : DisplayHandle) × (s : Screen) × (flush_screen d.app.left d.left_screen ≡ ok (h, s))
          × IsRendering d.app.browser left s)
        × ((h : DisplayHandle) × (s : Screen) × (flush_screen d.app.right d.right_screen
              ≡ ok (h, s))
            × IsRendering d.app.browser right s)
  flush_screen-Reach rows registry sessions l r d reached idle =
      let v = Reach-IsInStep (start_app-IsInStep rows registry sessions l r) reached in
      let (lhs, e, p) =
        flush_screen-IsFlushed d.repaints d.app.browser left d.app.left d.left_screen
          v.left_current in
      let (rhs, f, q) =
        flush_screen-IsFlushed d.repaints d.app.browser right d.app.right d.right_screen
          v.right_current in
      ((lhs.0, lhs.1, e, p.shows idle), (rhs.0, rhs.1, f, q.shows idle))
