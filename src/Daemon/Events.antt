-- ===== src/Daemon/Events.antt =====
-- crates/maschined/src/main.rs: what the daemon's tasks do with events and commands, and where it keeps
-- its files. An environment is a look-up of variables.
use openmk.Prelude.{
  ℕ, Bool, ◌||◌, ℤ, Option, none, some, List, [], ◌∷◌, ◌++◌, ◌==◌, if◌then◌else◌, Outcome, ok,
  codes,
}
use openmk.Nks.Plid.{Str}
use openmk.Nks.Riff.{same_bytes}
use openmk.Core.Event.{Event}
use openmk.Index.Query.{PresetRow, Query, Query_default}
use openmk.Daemon.Nav.{nav_event, repaint}
use openmk.Daemon.Broadcast.{event_message}
use openmk.Daemon.Osc.{OscServer, emit}
use openmk.Daemon.Ops.{App, show_rows}

-- `handle_nav_event`
unfoldable pub handle_nav_event : Event → App → App
handle_nav_event ev app =
    let (changed, b) = nav_event ev app.browser in
    let (l, r) = repaint app.left app.right b in
    if changed then record app { browser = b; left = l; right = r } else record app { browser = b }

-- `broadcast_event` at time `now`: the datagrams, and the server after.
unfoldable pub broadcast :
    {Addr Message : Type 0}
    → (Str → List ℤ → Option (List ℕ))
    → Option (Str × List ℤ)
    → ℕ
    → OscServer Addr Message
    → List (Addr × List ℕ) × OscServer Addr Message
broadcast encode none now s = ([], s)
broadcast encode (some (addr, args)) now s = emit encode addr args now s

unfoldable pub broadcast_event :
    {Addr Message : Type 0}
    → (Str → List ℤ → Option (List ℕ))
    → Event
    → ℕ
    → OscServer Addr Message
    → List (Addr × List ℕ) × OscServer Addr Message
broadcast_event encode ev now s = broadcast encode (event_message ev) now s

-- The loop over the device's events, each with its time: what is sent, and the daemon after.
unfoldable pub event_loop :
    {Addr Message : Type 0}
    → (Str → List ℤ → Option (List ℕ))
    → List (Event × ℕ)
    → App × OscServer Addr Message
    → List (Addr × List ℕ) × (App × OscServer Addr Message)
event_loop encode [] (app, s) = ([], (app, s))
event_loop encode ((ev, now) ∷ events) (app, s) =
    let (sent, s₁) = broadcast_event encode ev now s in
    let (later, end) = event_loop encode events (handle_nav_event ev app, s₁) in
    (sent ++ later, end)

unfoldable pub refresh_query : Query
refresh_query = record Query_default { limit = some 100 }

-- After the background scan: the rows of the query, if it succeeds.
unfoldable pub refresh : {Error : Type 0} → Outcome Error (List PresetRow) → App → App
refresh (ok rows) app = show_rows rows app
refresh _ app = app

-- The addresses that `handle_osc_cmd` knows; it does nothing else.
unfoldable pub is_reserved : Str → Bool
is_reserved addr =
    same_bytes addr (codes "/mk3/led/pad")
    || same_bytes addr (codes "/mk3/led/button")
    || same_bytes addr (codes "/mk3/display/0/image")
    || same_bytes addr (codes "/mk3/display/1/image")

-- `Path::join` of a relative path.
unfoldable pub join_path : Str → Str → Str
join_path [] path = path
join_path (c ∷ []) path = if c == 0x2f then c ∷ path else c ∷ (0x2f ∷ path)
join_path (c ∷ (d ∷ s)) path = c ∷ join_path (d ∷ s) path

abbrev pub path_or : Str → Option Str → Str
path_or default none = default
path_or default (some p) = p

unfoldable pub runtime_dir : (Str → Option Str) → Str
runtime_dir var = path_or (codes "/tmp") (var (codes "XDG_RUNTIME_DIR"))

-- The directory below the home directory, if there is one.
unfoldable pub home_state : Option Str → Str
home_state none = codes "/tmp/maschined"
home_state (some home) = join_path home (codes "Library/Application Support/maschined")

unfoldable pub state_dir : (Str → Option Str) → Str
state_dir var = home_state (var (codes "HOME"))

unfoldable pub plugin_host_path : (Str → Option Str) → Str
plugin_host_path var =
    path_or (codes "pluginhost/build/maschine-pluginhost_artefacts/maschine-pluginhost")
      (var (codes "MASCHINE_PLUGINHOST"))
