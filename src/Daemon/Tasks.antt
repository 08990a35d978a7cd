-- ===== src/Daemon/Tasks.antt =====
-- crates/maschined/src/main.rs: the daemon from its first repaint on, as the tasks that change the
-- browser or a display. What a task does while it holds the browser's lock is one step, since only the
-- displays' tasks can run meanwhile and each locks one framebuffer, which is changed once. A flush
-- with its transfer is one step, since the display's task alone writes to its display. A display reads the bytes of a transfer as they are laid out, and every transfer reaches it.
pub mod Agreement
pub mod Requests
pub mod Everywhere
pub mod Tests
use openmk.Prelude.{ℕ, ◌≡◌, Bool, true, false, Option, some, List, [], Outcome, ok}
use openmk.Proto.Types.{left, right}
use openmk.Nks.Plid.{Str, RawPlid}
use openmk.Nks.Riff.{NksError}
use openmk.Registry.{Registry}
use openmk.Index.Query.{PresetRow}
use openmk.Index.Scanner.{ScanStats}
use openmk.Core.Event.{Event}
use openmk.Core.Display.Scheduler.{DisplayHandle, DisplayHandle_new, Wake, wake, flush}
use openmk.Core.Display.Scheduler.Reader.{Screen}
use openmk.Core.Display.Scheduler.Shown.{shown}
use openmk.Ui.Browse.{BrowseState}
use openmk.Daemon.Nav.{nav_event, repaint}
use openmk.Daemon.Manager.{SessionManager}
use openmk.Daemon.Ipc.{Op, Reply}
use openmk.Daemon.Ops.{App, Payload, initial_state, populate, handle_uds_op}
use openmk.Daemon.Events.{refresh}

-- The daemon, whether the task of the device's events has changed the browser and has yet to repaint,
-- and what the two displays show.
pub record Daemon : Type 0 where
  pub app : App
  pub repaints : Bool
  pub left_screen : Screen
  pub right_screen : Screen

-- `main` up to the start of the tasks that share the daemon; `rows` is what the first query gives.
unfoldable pub start_app :
    {Error : Type 0} → Outcome Error (List PresetRow) → Registry → SessionManager Str → App
start_app rows registry sessions =
    let initial = populate rows initial_state in
    let (l, r) = repaint (DisplayHandle_new left) (DisplayHandle_new right) initial in
    record { browser = initial; registry = registry; sessions = sessions; left = l; right = r }

-- The first part of `handle_nav_event`, under the browser's lock.
unfoldable pub change_browser : Event → App → App
change_browser ev app = record app { browser = (nav_event ev app.browser).1 }

-- The second part, under the lock again.
unfoldable pub repaint_browser : App → App
repaint_browser app =
    let (l, r) = repaint app.left app.right app.browser in record app { left = l; right = r }

abbrev pub show_bytes : List ℕ → Screen → Bool × Screen
show_bytes bytes s = (true, shown bytes s)

-- The turn of a display's task after its wait.
unfoldable pub flush_screen : DisplayHandle → Screen → Outcome ⊥ (DisplayHandle × Screen)
flush_screen h s = flush show_bytes h s

-- A step of a task: of the loop over the device's events, of the loop over the requests, of the
-- background scan, or of a display's task, which waits and then flushes.
pub data Step (Value Error : Type 0) {Summary : Type 0} (decode_summary : List ℕ → Option Summary)
    (decode_plid : List ℕ → Option RawPlid) (encode_base64 : List ℕ → Str)
    (same_path : Str → Str → Bool) (d : Daemon) : Daemon → Type 0 where
  browser_changes :
      (ev : Event)
      → d.repaints ≡ false
      → Step Value Error decode_summary decode_plid encode_base64 same_path d
          (record d { app = change_browser ev d.app; repaints = (nav_event ev d.app.browser).0 })
  browser_repaints :
      d.repaints ≡ true
      → Step Value Error decode_summary decode_plid encode_base64 same_path d
          (record d { app = repaint_browser d.app; repaints = false })
  request :
      (read_file : Str → Outcome NksError (List ℕ)) (starts : Bool)
      (host_load : ℕ → Str → Str → Option Value) (scans : List (Outcome Error ScanStats))
      (open_db : Outcome Error (Unit {0}))
      (query_map : Str → List Str → Outcome Error (List (Outcome Error PresetRow))) (op : Op)
      (reply : Reply (Payload Value Error)) (app : App)
      → handle_uds_op decode_summary decode_plid encode_base64 same_path read_file starts host_load
          scans open_db query_map op d.app
        ≡ ok (reply, app)
      → Step Value Error decode_summary decode_plid encode_base64 same_path d
          (record d { app = app })
  background_scan :
      (rows : Outcome Error (List PresetRow))
      → Step Value Error decode_summary decode_plid encode_base64 same_path d
          (record d { app = refresh rows d.app })
  left_wakes :
      (w : Wake) (h : DisplayHandle)
      → wake w d.app.left ≡ some h
      → Step Value Error decode_summary decode_plid encode_base64 same_path d
          (record d { app = record d.app { left = h } })
  right_wakes :
      (w : Wake) (h : DisplayHandle)
      → wake w d.app.right ≡ some h
      → Step Value Error decode_summary decode_plid encode_base64 same_path d
          (record d { app = record d.app { right = h } })
  left_flushes :
      (h : DisplayHandle) (s : Screen)
      → flush_screen d.app.left d.left_screen ≡ ok (h, s)
      → Step Value Error decode_summary decode_plid encode_base64 same_path d
          (record d { app = record d.app { left = h }; left_screen = s })
  right_flushes :
      (h : DisplayHandle) (s : Screen)
      → flush_screen d.app.right d.right_screen ≡ ok (h, s)
      → Step Value Error decode_summary decode_plid encode_base64 same_path d
          (record d { app = record d.app { right = h }; right_screen = s })

-- Any interleaving of steps.
pub data Reach (Value Error : Type 0) {Summary : Type 0} (decode_summary : List ℕ → Option Summary)
    (decode_plid : List ℕ → Option RawPlid) (encode_base64 : List ℕ → Str)
    (same_path : Str → Str → Bool) (d : Daemon) : Daemon → Type 0 where
  here : Reach Value Error decode_summary decode_plid encode_base64 same_path d d
  later :
      {e f : Daemon}
      → Reach Value Error decode_summary decode_plid encode_base64 same_path d e
      → Step Value Error decode_summary decode_plid encode_base64 same_path e f
      → Reach Value Error decode_summary decode_plid encode_base64 same_path d f
