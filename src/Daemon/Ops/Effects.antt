-- ===== src/Daemon/Ops/Effects.antt =====
-- What a request changes in the daemon.
use openmk.Prelude.{
  ℕ, ◌≡◌, refl, Bool, true, false, Option, List, Outcome, ok, err, panic, ◌>>=◌, arith,
}
use openmk.Proto.Types.{left, right}
use openmk.Nks.Plid.{Str, RawPlid}
use openmk.Nks.Riff.{NksError}
use openmk.Index.Query.{PresetRow, run}
use openmk.Index.Scanner.{ScanStats}
use openmk.Core.Display.Scheduler.{modify}
use openmk.Ui.Browse.{set_rows}
use openmk.Daemon.Ipc.{browse, BrowseArgs, Reply}
use openmk.Daemon.Nav.{repaint}
use openmk.Daemon.Nav.Cursor.{IsBrowse}
use openmk.Daemon.Sink.Rectangles.{AreSized}
use openmk.Core.Display.Framebuffer.Pixels.{pixel_at}
use openmk.Daemon.Sink.Redrawn.{IsRendering, render-IsRendering}
use openmk.Daemon.Sink.Contract.{IsTouched, render-IsTouched}
use openmk.Daemon.Ops.{
  App, Payload, show_rows, browse_reply, handle_uds_op, preset_rows, db_error, browse_query,
}

-- Both framebuffers are whole, and the browser's cursors are on entries.
pub record IsApp (app : App) : Type 0 where
  pub browsing : IsBrowse app.browser
  pub left_sized : AreSized app.left.fb
  pub right_sized : AreSized app.right.fb

-- The displays of `app'` are drawn anew: each framebuffer is the rendering of its side of the browser of
-- `app'`, the scheduler of each has its notification, and every pixel that changed is in a dirty tile.
pub record IsRedrawn (app app' : App) : Type 0 where
  pub left_drawn : IsRendering app'.browser left (pixel_at app'.left.fb)
  pub right_drawn : IsRendering app'.browser right (pixel_at app'.right.fb)
  pub left_notified : app'.left.notify ≡ true
  pub right_notified : app'.right.notify ≡ true
  pub left_touched : IsTouched app.left.fb app'.left.fb
  pub right_touched : IsTouched app.right.fb app'.right.fb

show_rows-IsRedrawn :
    (rows : List PresetRow) (app : App) → IsApp app → IsRedrawn app (show_rows rows app)
unfolding show_rows repaint modify
show_rows-IsRedrawn rows app v = record {
  left_drawn = render-IsRendering _ left app.left.fb v.left_sized;
  right_drawn = render-IsRendering _ right app.right.fb v.right_sized;
  left_notified = refl;
  right_notified = refl;
  left_touched = render-IsTouched _ left app.left.fb v.left_sized;
  right_touched = render-IsTouched _ right app.right.fb v.right_sized;
}

show_rows-IsApp : (rows : List PresetRow) (app : App) → IsApp app → IsApp (show_rows rows app)
unfolding show_rows repaint modify set_rows
show_rows-IsApp rows app v = record {
  browsing = record { cursor_in = omega arith; facet_in = v.browsing.facet_in };
  left_sized = (show_rows-IsRedrawn rows app v).left_touched.sized;
  right_sized = (show_rows-IsRedrawn rows app v).right_touched.sized;
}

-- What a `browse` request does when the query gives `rows`, or an error.
abbrev pub BrowseEffect :
    {Value Error : Type 0}
    → Outcome Error (List PresetRow)
    → App
    → Outcome Error (Reply (Payload Value Error) × App)
    → Type 0
BrowseEffect (ok rows) app answer =
    (app' : App) × (answer ≡ ok (record { ok = true; payload = preset_rows rows }, app'))
    × (app'.browser ≡ record app.browser { rows = rows; cursor = 0 })
    × IsApp app'
    × IsRedrawn app app'
BrowseEffect (err e) app answer = answer ≡ ok (record { ok = false; payload = db_error e }, app)
BrowseEffect panic app answer = answer ≡ panic

browse_reply-BrowseEffect :
    (Value : Type 0) {Error : Type 0} (r : Outcome Error (List PresetRow)) (app : App)
    → IsApp app
    → BrowseEffect {Value = Value} r app (browse_reply r app)
unfolding browse_reply
browse_reply-BrowseEffect Value (ok rows) app v = (
  show_rows rows app,
  refl,
  unfold show_rows set_rows in refl,
  show_rows-IsApp rows app v,
  show_rows-IsRedrawn rows app v,
)
browse_reply-BrowseEffect Value (err e) app v = refl
browse_reply-BrowseEffect Value panic app v = refl

-- A `browse` request: if the query gives rows, the reply has them, the browser has them with the cursor on
-- the first and is otherwise as before, and both displays are redrawn: each framebuffer has, at every
-- pixel, what rendering its side of the new browser on a new framebuffer gives, every pixel that changed
-- is in a dirty tile, and the scheduler is notified. If the query fails, the reply has the error and the
-- daemon is as before. Condition: the framebuffers are whole and the cursors on entries, which hold again
-- afterwards.
pub handle_uds_op-BrowseEffect :
    {Summary Value Error : Type 0} (decode_summary : List ℕ → Option Summary)
    (decode_plid : List ℕ → Option RawPlid) (encode_base64 : List ℕ → Str)
    (same_path : Str → Str → Bool) (read_file : Str → Outcome NksError (List ℕ)) (starts : Bool)
    (host_load : ℕ → Str → Str → Option Value) (scans : List (Outcome Error ScanStats))
    (open_db : Outcome Error (Unit {0}))
    (query_map : Str → List Str → Outcome Error (List (Outcome Error PresetRow)))
    (args : BrowseArgs) (app : App)
    → IsApp app
    → BrowseEffect {Value = Value} (open_db >>= λ _. run query_map (browse_query args)) app (
        handle_uds_op decode_summary decode_plid encode_base64 same_path read_file starts host_load
          scans open_db query_map
          (browse args)
          app)
unfolding handle_uds_op
handle_uds_op-BrowseEffect {Value = Value} decode_summary decode_plid encode_base64 same_path
      read_file starts host_load scans open_db query_map args app v =
    browse_reply-BrowseEffect Value (open_db >>= λ _. run query_map (browse_query args)) app v
