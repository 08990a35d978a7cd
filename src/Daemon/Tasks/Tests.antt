-- ===== src/Daemon/Tasks/Tests.antt =====
-- A run of the daemon's tasks: an encoder is turned, the display's task wakes, and the screen is sent.
use openmk.Prelude.{ℕ, ◌≡◌, refl, true, false, Option, none, List, [], ok, pos}
use openmk.Proto.Types.{left, right}
use openmk.Nks.Plid.{Str, RawPlid}
use openmk.Core.Event.{macro_encoder}
use openmk.Core.Display.Scheduler.{DisplayHandle, tick, wake}
use openmk.Core.Display.Scheduler.Reader.{Screen}
use openmk.Daemon.Manager.{SessionManager}
use openmk.Daemon.Ops.{App, initial_state, populate}
use openmk.Ui.Browse.{set_rows}
use openmk.Daemon.Nav.{nav_event, turn_facet}
use openmk.Daemon.Tasks.{
  Daemon, start_app, flush_screen, browser_changes, browser_repaints, change_browser,
  repaint_browser, left_wakes, Reach, here, later,
}
use openmk.Daemon.Sink.Redrawn.{IsRendering}
use openmk.Daemon.Tasks.Everywhere.{flush_screen-Reach}

abbrev sessions : SessionManager Str
sessions = record { by_bundle = []; spawned = 0 }

abbrev dark : Screen
dark i j = 0

abbrev started : App
started = start_app {Error = Str} (ok []) [] sessions

-- The facet cursor has moved on.
abbrev turned : App
turned = repaint_browser (change_browser (macro_encoder 0 (pos 1) 7) started)

abbrev summary_of : List ℕ → Option ℕ
summary_of bytes = none

abbrev plid_of : List ℕ → Option RawPlid
plid_of bytes = none

abbrev daemon : Daemon
daemon = record { app = turned; repaints = false; left_screen = dark; right_screen = dark }

abbrev run :
    Reach Str Str summary_of plid_of
      (λ bytes. bytes)
      (λ p q. true)
      (record { app = started; repaints = false; left_screen = dark; right_screen = dark })
      daemon
unfolding wake start_app populate initial_state nav_event turn_facet change_browser set_rows
run =
    later
      (later (later here (browser_changes (macro_encoder 0 (pos 1) 7) refl))
        (browser_repaints refl))
      (left_wakes tick turned.left refl)

flush_screen-Reach_example :
    ((h : DisplayHandle) × (s : Screen) × (flush_screen turned.left dark ≡ ok (h, s))
      × IsRendering turned.browser left s)
    × ((h : DisplayHandle) × (s : Screen) × (flush_screen turned.right dark ≡ ok (h, s))
        × IsRendering turned.browser right s)
flush_screen-Reach_example =
    flush_screen-Reach Str Str summary_of plid_of (λ bytes. bytes) (λ p q. true) (ok []) [] sessions
      dark dark daemon run refl
