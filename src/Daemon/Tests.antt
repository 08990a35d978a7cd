-- ===== src/Daemon/Tests.antt =====
-- Runs of the daemon's parts at concrete inputs.
use openmk.Prelude.{
  Bool, ◌<◌, trim, trim_start, trim_end, ℕ, ◌+◌, ◌≡◌, ◌↔◌, ◌≤◌, ◌-◌, ◌/◌, refl, inl, ℤ, pos, negsuc,
  true, false, Option, none, some, List, [], ◌∷◌, length, replicate, length-replicate, get_elem?,
  map_get, count_by, ltb, ◌==◌, if◌then◌else◌, Outcome, ok, err, ◌>>=◌, codes, arith,
}
use openmk.Proto.Types.{width, height, left, right, Rgb, to_rgb565}
use openmk.Nks.Plid.{Str, RawPlid}
use openmk.Nks.Riff.{NksError, same_bytes, unexpected_eof}
use openmk.Core.Event.{macro_encoder}
use openmk.Core.Display.Framebuffer.{Framebuffer, fill_rect}
use openmk.Core.Display.Framebuffer.Pixels.{pixel_at}
use openmk.Core.Display.Dirty.{is_tile_dirty, DirtyTracker_new}
use openmk.Index.Query.{PresetRow, run}
use openmk.Ui.Browse.{BrowseState, BrowseState_default, set_rows, render}
use openmk.Ui.Render.{sink_fill_rect, draw_text}
use openmk.Daemon.Sink.{fb_sink}
use openmk.Daemon.Sink.Rectangles.{AreSized, sink_fill_rect-fill_rect}
use openmk.Daemon.Sink.Texts.{text_ink, pixel_at-draw_text}
use openmk.Core.Display.Scheduler.Reader.{zeros-AreWords}
use openmk.Core.Display.Scheduler.{DisplayHandle, modify, notified, wake, flush}
use openmk.Core.Display.Scheduler.Shown.{shown}
use openmk.Daemon.Sink.Showing.{shown-render}
use openmk.Daemon.Sink.Redrawn.{pixel_at-render}
use openmk.Daemon.Nav.{nav_event}
use openmk.Daemon.Nav.Cursor.{IsBrowse, scrolled, rotated, nav_event_lem, nav_event-IsBrowse}
use openmk.Daemon.Session.{
  Envelope, PluginSession, Call, eof, line, Action, begins, registers, writes, reads, new_session,
  read_loop, run_steps, begin_call, register_call, read_step, write_call, write_line,
  dispatch_decoded, dispatch, reply, step,
}
use openmk.Daemon.Session.Matching.{reply_channel}
use openmk.Daemon.Session.Delivery.{reply-call}
use openmk.Daemon.Session.Progress.{read_loop-answers}
use openmk.Daemon.Session.Ended.{run_steps_ended}
use openmk.Daemon.Manager.{SessionManager_new, load_session, found_session, spawn_session}
use openmk.Daemon.Manager.Sharing.{run_loads, load_session-same}
use openmk.Daemon.Osc.{OscPacket, message, emit}
use openmk.Daemon.Osc.Subscribers.{receive_all, last_seen, recent, datagram_for, emit-last_seen}
use openmk.Daemon.Ipc.{BrowseArgs, browse}
use openmk.Daemon.Ops.{App, handle_uds_op, browse_query}
use openmk.Daemon.Ops.Effects.{IsApp, BrowseEffect, handle_uds_op-BrowseEffect}

abbrev screen : Framebuffer
screen = record { pixels = replicate 130560 0; dirty = record { bits = 6 ∷ replicate 7 0 } }

screen-AreSized : AreSized screen
screen-AreSized = (length-replicate {A = ℕ} 130560 0, refl)

-- What was on the display before does not matter.
abbrev noise : Framebuffer
noise = record { pixels = replicate 130560 7; dirty = record { bits = replicate 8 0 } }

pixel_at-render_example :
    pixel_at (render fb_sink BrowseState_default left screen) 9 40
    ≡ pixel_at (render fb_sink BrowseState_default left noise) 9 40
pixel_at-render_example =
    pixel_at-render BrowseState_default left screen noise 9 40 screen-AreSized
      (length-replicate {A = ℕ} 130560 7, refl) (omega arith) (omega arith)

abbrev orange : Rgb
orange = record { r = 255; g = 128; b = 32 }

sink_fill_rect-fill_rect_example :
    (pixel_at (sink_fill_rect fb_sink screen 470 10 20 5 orange) 475 12
      ≡ pixel_at (fill_rect screen 470 10 20 5 orange) 475 12)
    × (is_tile_dirty (sink_fill_rect fb_sink screen 470 10 20 5 orange).dirty (475 / 16) (12 / 16)
        ≡ is_tile_dirty (fill_rect screen 470 10 20 5 orange).dirty (475 / 16) (12 / 16))
sink_fill_rect-fill_rect_example =
    sink_fill_rect-fill_rect screen 470 10 20 5 orange 475 12 screen-AreSized (omega arith)
      (omega arith)

pixel_at-draw_text_example :
    pixel_at (draw_text fb_sink screen 8 8 (codes "All") orange).1 9 10
    ≡ (if text_ink 8 8 (codes "All") 9 10 then to_rgb565 orange else pixel_at screen 9 10)
pixel_at-draw_text_example =
    pixel_at-draw_text screen 8 8 (codes "All") orange 9 10 screen-AreSized (omega arith)
      (omega arith) (omega arith) (omega arith)

abbrev left_display : DisplayHandle
left_display = record { id = left; fb = screen; notify = false }

abbrev keep_transfer : List ℕ → List (List ℕ) → Bool × List (List ℕ)
keep_transfer bytes kept = (true, bytes ∷ kept)

shown-render_example :
    let fb' = render fb_sink BrowseState_default left screen in
    (woken : DisplayHandle) × (bytes : List ℕ) × (wake notified
        (modify (render fb_sink BrowseState_default left) left_display)
      ≡ some woken)
    × (flush keep_transfer woken []
        ≡ ok (
          record woken { fb = record fb' { dirty = DirtyTracker_new } },
          (keep_transfer bytes []).1,
        ))
    × ((i j : ℕ) → i < width → j < height → shown bytes (λ k l. 7) i j ≡ pixel_at fb' i j)
shown-render_example =
    shown-render keep_transfer BrowseState_default left left_display [] (λ k l. 7)
      (screen-AreSized, zeros-AreWords 130560)

abbrev row : ℕ → PresetRow
row n = record {
  id = pos n;
  path = codes "/p";
  name = codes "Bell";
  vendor = [];
  plugin_ref = codes "vst2:00000007";
  bank_chain = [];
}

abbrev browser : BrowseState
browser = record {
  facet = none;
  type_filter = none;
  subtype_filter = none;
  mode_filter = none;
  vendor_filter = none;
  text_query = none;
  cursor = 1;
  rows = row 1 ∷ row 2 ∷ row 3 ∷ [];
  facet_values = codes "Synth" ∷ codes "Bass" ∷ [];
  facet_cursor = 1;
}

browser-IsBrowse : IsBrowse browser
browser-IsBrowse = record { cursor_in = omega arith; facet_in = omega arith }

nav_event_lem_example :
    (nav_event (macro_encoder 2 (pos 5) 40) browser
      ≡ (true, record browser { cursor = scrolled 3 (pos 5) 1 }))
    × (nav_event (macro_encoder 0 (pos 5) 40) browser ≡ (
        if ltb 0 2
        then (true, record browser { facet_cursor = rotated 2 (pos 5) 1 })
        else (false, browser)))
nav_event_lem_example = nav_event_lem (pos 5) 40 browser browser-IsBrowse

nav_event-IsBrowse_example :
    IsBrowse (nav_event (macro_encoder 2 (negsuc 3) 40) browser).1 × IsBrowse (set_rows [] browser)
nav_event-IsBrowse_example =
    nav_event-IsBrowse (macro_encoder 2 (negsuc 3) 40) [] browser browser-IsBrowse

-- A host whose lines are the id of an envelope, and nothing else.
abbrev from_str : Str → Option (Envelope ℕ)
from_str [] = none
from_str (c ∷ s) = some (record { id = c - 48; kind = []; body = 0 })

abbrev to_string : Envelope ℕ → Option Str
to_string env = some ((48 + env.id) ∷ [])

-- Two calls; the second is answered first.
abbrev steps : List (Action ℕ)
steps =
    begins (codes "load") 7
    ∷ begins (codes "midi") 8
    ∷ registers 0
    ∷ registers 0
    ∷ writes true 0
    ∷ writes true 0
    ∷ reads (line (codes " 2"))
    ∷ reads (line (codes "1"))
    ∷ []

abbrev second_reply : Envelope ℕ
second_reply = record { id = 2; kind = []; body = 0 }

abbrev second_call : Call ℕ
second_call = record { channel = 1; envelope = record { id = 2; kind = codes "midi"; body = 8 } }

steps_reply :
    get_elem? (run_steps from_str to_string steps new_session).replies 0 ≡ some (1, second_reply)
unfolding run_steps step begin_call register_call write_call write_line read_step dispatch_decoded
    dispatch reply new_session trim trim_start trim_end
steps_reply = refl

steps_written :
    get_elem? (run_steps from_str to_string steps new_session).written 0 ≡ some second_call
unfolding run_steps step begin_call register_call write_call write_line read_step dispatch_decoded
    dispatch reply new_session trim trim_start trim_end
steps_written = refl

reply-call_example :
    ((second_reply.id ≡ second_call.envelope.id) ↔ (1 ≡ second_call.channel))
    × (count_by reply_channel 1 (run_steps from_str to_string steps new_session).replies ≤ 1)
reply-call_example =
    reply-call from_str to_string steps 0 0 1 second_reply second_call (omega arith) steps_reply
      steps_written

abbrev waiting : PluginSession ℕ
waiting = record {
  pending = (1, 0) ∷ (2, 1) ∷ [];
  next_id = 3;
  events = [];
  replies = [];
  stdin = [];
  started = [];
  registered = [];
  written = [];
  reading = true;
  calls = 2;
}

trimmed_two : from_str (trim (codes " 2")) ≡ some second_reply
unfolding trim trim_start trim_end
trimmed_two = refl

read_loop-answers_example :
    (i : ℕ) × (get_elem? (read_loop from_str (line (codes " 2") ∷ eof ∷ []) waiting).replies i
      ≡ some (1, second_reply))
read_loop-answers_example =
    read_loop-answers from_str 2 1 [] (eof ∷ []) (codes " 2") second_reply waiting tt trimmed_two
      refl (λ e. ground arith) refl refl

run_steps_ended_example :
    (run_steps from_str to_string (reads eof ∷ reads (line (codes "1")) ∷ []) waiting).replies ≡ []
run_steps_ended_example =
    run_steps_ended from_str to_string eof (reads (line (codes "1")) ∷ []) waiting (inl refl)

-- Paths and addresses as numbers.
same_refl : (a : ℕ) → (a == a) ≡ true
same_refl a = ground arith

same_sym : (a b : ℕ) → (a == b) ≡ true → (b == a) ≡ true
same_sym a b h = ground arith

same_trans : (a b c : ℕ) → (a == b) ≡ true → (b == c) ≡ true → (a == c) ≡ true
same_trans a b c h k = ground arith

load_session-same_example : (◌≡◌ {A = ℕ} 0 0) ↔ ((5 == 5) ≡ true)
unfolding load_session found_session spawn_session run_loads SessionManager_new
load_session-same_example =
    load_session-same ◌==◌ same_refl same_sym same_trans [] ((true, 6) ∷ []) true false 5 5 0 0 refl
      refl

abbrev decode_udp : List ℕ → Option (OscPacket ℕ ℕ)
decode_udp bytes = some (message (length bytes))

abbrev encode : Str → List ℤ → Option (List ℕ)
encode addr args = some addr

-- Two addresses; the first was last seen too long ago.
abbrev datagrams : List (List ℕ × (ℕ × ℕ))
datagrams = ([], (1, 1000)) ∷ ([], (2, 50000)) ∷ []

emit-last_seen_example :
    map_get ◌==◌ 2
      (emit encode (codes "/mk3/touchstrip/release") [] 70000 (
        receive_all ◌==◌ same_refl same_sym same_trans decode_udp datagrams
          (record { subs = []; cmd_tx = [] }))).0
    ≡ datagram_for ◌==◌ same_refl same_sym same_trans (codes "/mk3/touchstrip/release") (
        recent ◌==◌ same_refl same_sym same_trans 70000
          (last_seen ◌==◌ same_refl same_sym same_trans 2 none datagrams))
emit-last_seen_example =
    emit-last_seen ◌==◌ same_refl same_sym same_trans decode_udp encode
      (codes "/mk3/touchstrip/release") [] (codes "/mk3/touchstrip/release") datagrams 70000 2 refl

abbrev app : App
app = record {
  browser = browser;
  registry = [];
  sessions = record { by_bundle = []; spawned = 0 };
  left = record { id = left; fb = screen; notify = false };
  right = record { id = right; fb = screen; notify = false };
}

app-IsApp : IsApp app
app-IsApp = record {
  browsing = browser-IsBrowse;
  left_sized = screen-AreSized;
  right_sized = screen-AreSized;
}

abbrev args : BrowseArgs
args = record { text = none; vendor = none; type = none; limit = none }

abbrev summary_of : List ℕ → Option ℕ
summary_of bytes = none

abbrev plid_of : List ℕ → Option RawPlid
plid_of bytes = none

abbrev no_file : Str → Outcome NksError (List ℕ)
no_file path = err unexpected_eof

abbrev host_load : ℕ → Str → Str → Option ℕ
host_load session bundle state = none

-- A database that has two rows for any statement.
abbrev two_rows : Str → List Str → Outcome Str (List (Outcome Str PresetRow))
two_rows sql params = ok (ok (row 4) ∷ ok (row 5) ∷ [])

abbrev opened : Outcome Str (Unit {0})
opened = ok tt

handle_uds_op-BrowseEffect_example :
    BrowseEffect {Value = ℕ} (opened >>= λ _. run two_rows (browse_query args)) app (
      handle_uds_op summary_of plid_of
        (λ bytes. bytes)
        same_bytes
        no_file
        true
        host_load
        []
        opened
        two_rows
        (browse args)
        app)
handle_uds_op-BrowseEffect_example =
    handle_uds_op-BrowseEffect summary_of plid_of (λ bytes. bytes) same_bytes no_file true host_load
      [] opened two_rows args app app-IsApp
