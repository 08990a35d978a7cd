-- ===== src/Daemon/Tasks/Requests.antt =====
-- What every change of the daemon keeps: both displays agree with the browser.
use openmk.Prelude.{
  ℕ, ◌≡◌, refl, inl, inr, Bool, false, Option, some, none, List, Outcome, ok, err, panic, ◌>>=◌,
  map_ok, Bool-cases, ltb, ◌==◌, arith, length,
}
use openmk.Proto.Types.{left, right}
use openmk.Nks.Plid.{Str, RawPlid}
use openmk.Nks.Riff.{NksError}
use openmk.Index.Query.{PresetRow, run}
use openmk.Index.Scanner.{ScanStats}
use openmk.Core.Event.{
  Event, macro_encoder, pad, button, master_encoder, touch_strip, touch_strip_released, analog, raw,
}
use openmk.Core.Display.Scheduler.{modify}
use openmk.Core.Display.Scheduler.Reader.{Screen}
use openmk.Ui.Browse.{BrowseState, set_rows}
use openmk.Daemon.Nav.{turn_facet, nav_event, repaint}
use openmk.Daemon.Ipc.{Op, status, scan_libraries, browse, load}
use openmk.Daemon.Ops.{
  App, show_rows, find_row, browse_query, browse_reply, load_reply, load_preset, load_found,
  handle_uds_op, LoadError,
}
use openmk.Daemon.Events.{refresh}
use openmk.Daemon.Sink.Showing.{IsFrame}
use openmk.Daemon.Tasks.{change_browser}
use openmk.Daemon.Tasks.Agreement.{IsCurrent, render-IsCurrent, change-IsCurrent}

-- Both displays agree with the browser.
pub record IsInStep (due : Bool) (l r : Screen) (app : App) : Type 0 where
  pub left_current : IsCurrent due app.browser left app.left.fb l
  pub right_current : IsCurrent due app.browser right app.right.fb r

pub repaint-IsInStep :
    (due : Bool) (l r : Screen) (app : App) (b : BrowseState)
    → IsFrame app.left.fb
    → IsFrame app.right.fb
    → let (lhs, rhs) = repaint app.left app.right b in
      IsInStep due l r (record app { browser = b; left = lhs; right = rhs })
unfolding repaint modify
repaint-IsInStep due l r app b v w = record {
  left_current = render-IsCurrent due b left app.left.fb l v;
  right_current = render-IsCurrent due b right app.right.fb r w;
}

show_rows-IsInStep :
    (due : Bool) (l r : Screen) (rows : List PresetRow) (app : App)
    → IsInStep due l r app
    → IsInStep due l r (show_rows rows app)
unfolding show_rows
show_rows-IsInStep due l r rows app v =
    repaint-IsInStep due l r app (set_rows rows app.browser) v.left_current.frame
      v.right_current.frame

pub refresh-IsInStep :
    {Error : Type 0} (due : Bool) (l r : Screen) (rows : Outcome Error (List PresetRow)) (app : App)
    → IsInStep due l r app
    → IsInStep due l r (refresh rows app)
unfolding refresh
refresh-IsInStep due l r (ok rows) app v = show_rows-IsInStep due l r rows app v
refresh-IsInStep due l r (err e) app v = v
refresh-IsInStep due l r panic app v = v

-- An event that asks for no repaint leaves the browser as it was.
nav_event_unchanged :
    (ev : Event) (b : BrowseState) → (nav_event ev b).0 ≡ false → (nav_event ev b).1 ≡ b
unfolding nav_event turn_facet
nav_event_unchanged (macro_encoder index delta absolute) b h = elim (Bool-cases (index == 2)) [
  | inl rows ↦ absurd (ground (arith, rows, h))
  | inr other ↦ elim (Bool-cases (index == 0)) [
    | inl facets ↦ elim (Bool-cases (ltb 0 (length b.facet_values))) [
      | inl some_value ↦ absurd (ground (arith, other, facets, some_value, h))
      | inr no_value ↦ rw (other, facets, no_value) refl
    ]
    | inr none_of_them ↦ rw (other, none_of_them) refl
  ]
]
nav_event_unchanged (pad i force velocity phase) b h = refl
nav_event_unchanged (button bit pressed) b h = refl
nav_event_unchanged (master_encoder delta absolute) b h = refl
nav_event_unchanged (touch_strip position force) b h = refl
nav_event_unchanged touch_strip_released b h = refl
nav_event_unchanged (analog which value) b h = refl
nav_event_unchanged (raw report) b h = refl

pub change_browser-IsInStep :
    (l r : Screen) (ev : Event) (app : App)
    → IsInStep false l r app
    → IsInStep (nav_event ev app.browser).0 l r (change_browser ev app)
unfolding change_browser
change_browser-IsInStep l r ev app v =
    let (due, b) = nav_event ev app.browser in
    record {
      left_current =
          change-IsCurrent false due app.browser b left app.left.fb l v.left_current
            (λ e. (refl, nav_event_unchanged ev app.browser e));
      right_current =
          change-IsCurrent false due app.browser b right app.right.fb r v.right_current
            (λ e. (refl, nav_event_unchanged ev app.browser e));
    }

-- What holds of the daemon that a request leaves.
abbrev pub OnOk : {E A B : Type 0} → (B → Type 0) → Outcome E (A × B) → Type 0
OnOk P (ok (a, b)) = P b
OnOk P (err e) = Unit
OnOk P panic = Unit

browse_reply-IsInStep :
    (Value : Type 0) {Error : Type 0} (due : Bool) (l r : Screen)
    (rows : Outcome Error (List PresetRow)) (app : App)
    → IsInStep due l r app
    → OnOk (IsInStep due l r) (browse_reply {Value = Value} rows app)
unfolding browse_reply
browse_reply-IsInStep Value due l r (ok rows) app v = show_rows-IsInStep due l r rows app v
browse_reply-IsInStep Value due l r (err e) app v = v
browse_reply-IsInStep Value due l r panic app v = tt

load_reply-OnOk :
    (Error : Type 0) {Value B : Type 0} (P : B → Type 0) (res : Outcome LoadError (Str × Value))
    (b : B)
    → P b
    → OnOk P (map_ok (λ r. (r, b)) (load_reply {Error = Error} res))
unfolding load_reply
load_reply-OnOk Error P (ok (bundle, body)) b p = p
load_reply-OnOk Error P (err e) b p = p
load_reply-OnOk Error P panic b p = tt

module _ (Error : Type 0) {Summary Value : Type 0} (decode_summary : List ℕ → Option Summary)
    (decode_plid : List ℕ → Option RawPlid) (encode_base64 : List ℕ → Str)
    (same_path : Str → Str → Bool) (read_file : Str → Outcome NksError (List ℕ)) (starts : Bool)
    (host_load : ℕ → Str → Str → Option Value) (due : Bool) (l r : Screen) where
  load_found-IsInStep :
      (row : Option PresetRow) (app : App)
      → IsInStep due l r app
      → OnOk (IsInStep due l r) (
          load_found decode_summary decode_plid encode_base64 same_path read_file starts host_load
            {Error = Error} row app)
  unfolding load_found
  load_found-IsInStep none app v = v
  load_found-IsInStep (some row) app v =
      let (res, m) =
        load_preset decode_summary decode_plid encode_base64 same_path read_file starts host_load
          row app in
      load_reply-OnOk Error (IsInStep due l r) res (record app { sessions = m })
        (record { left_current = v.left_current; right_current = v.right_current })

  pub handle_uds_op-IsInStep :
      (scans : List (Outcome Error ScanStats)) (open_db : Outcome Error (Unit {0}))
      (query_map : Str → List Str → Outcome Error (List (Outcome Error PresetRow))) (op : Op)
      (app : App)
      → IsInStep due l r app
      → OnOk (IsInStep due l r) (
          handle_uds_op decode_summary decode_plid encode_base64 same_path read_file starts
            host_load scans open_db query_map op app)
  unfolding handle_uds_op
  handle_uds_op-IsInStep scans open_db query_map status app v = v
  handle_uds_op-IsInStep scans open_db query_map scan_libraries app v = v
  handle_uds_op-IsInStep scans open_db query_map (browse args) app v =
      browse_reply-IsInStep Value due l r (open_db >>= λ _. run query_map (browse_query args)) app v
  handle_uds_op-IsInStep scans open_db query_map (load preset_id) app v =
      load_found-IsInStep (find_row preset_id app.browser.rows) app v
