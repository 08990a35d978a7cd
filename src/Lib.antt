-- ===== src/Lib.antt =====
-- openmk: the user-space driver of the Maschine Mk3 controller.
--
-- A device sends HID IN frames. crates/maschine-proto parses them, and the diff task of
-- crates/maschine-core compares each report with the last one and sends events. In the other
-- direction a framebuffer keeps the pixels of a display and which tiles have changed, and the display
-- encoder of crates/maschine-core builds transfers for those tiles with the encoders of
-- crates/maschine-proto, which also build the LED reports. Apart from the device, crates/nks-parse
-- reads the metadata of preset files, crates/plugin-registry finds the plug-in of a preset, and
-- crates/nks-index keeps an index of presets. crates/maschined joins the parts: encoders move the
-- cursors of the browser of crates/maschine-ui, which draws on both framebuffers; requests of a client
-- query the index and load a preset in a plug-in host; events go out as OSC messages.
--
-- Files:
-- - Prelude and its children: Boolean tests on numbers, lists by index, binary digits, fixed-width
--   arithmetic, and `Outcome`, the result of fallible code: `ok`, `err` (a returned error) or
--   `panic` (an index or slice out of range).
-- - Proto/Types: crates/maschine-proto/src/types.rs. `to_rgb565` is `Rgb::to_rgb565`.
-- - Proto/HidIn: crates/maschine-proto/src/hid_in.rs. `parse` is `parse`; its match is `dispatch`, and
--   the loops of `parse_controls` and `parse_pads` are `read_macros` and `parse_chunks`.
-- - Proto/HidOut and Proto/Display: hid_out.rs and display.rs of the same crate. An encoder takes the
--   output buffer and returns the written length with the buffer after the call.
-- - Core/Event and Core/Device: crates/maschine-core/src/event.rs and device.rs. `DiffState` is the
--   state of the task (its field `last` is the source's `controls`), `emit_controls` and `emit_pads`
--   return the new state and what is sent, and `diff_task` is the loop of `spawn_diff_task`.
-- - Core/Display/Dirty, Core/Display/Framebuffer, Core/Display/Encoder: dirty.rs, framebuffer.rs and
--   encoder.rs of crates/maschine-core/src/display, with the names of the source. A method that
--   changes its receiver returns the new one.
-- - Nks/Riff: crates/nks-parse/src/riff.rs. `walk` is the loop of `read_metadata`, on a file that is its
--   bytes and a position; the two MessagePack decoders, code of another package, are parameters.
-- - Nks/Plid: crates/nks-parse/src/plid.rs. `classify` is the part of `NksPluginId::deserialize` behind
--   the derived decoder.
-- - Registry, Registry/Vst3 and Registry/Au: resolve.rs, vst3.rs and au.rs of
--   crates/plugin-registry/src. A text is its characters, and a class id its bytes. `scan` is `Registry::scan` on what the two scans
--   of the system return.
-- - Nks/Riff/State: `NksFile::read_state` of crates/nks-parse/src/lib.rs.
-- - Core/Display/Scheduler: crates/maschine-core/src/display/mod.rs. `modify` is `DisplayHandle::modify`;
--   `wake` is the end of the `select!`, and `flush` the loop body after it. Scheduler/Reader reads the
--   bytes of a frame the way a display does, without the encoder: `show_transfer` takes as fuel the
--   number of the bytes, and each rectangle it reads is longer than one.
-- - Core/Platform: crates/maschine-core/src/platform/macos.rs. `capture_and_suspend` and `drop_claim` are
--   `MacOsClaimState::capture_and_suspend` and its `drop`, on a log of the calls that change something.
-- - Core/Transport: mod.rs, nusb_impl.rs and dext_impl.rs of crates/maschine-core/src/transport.
--   `open_transport`, `nusb_open` and `dext_open` are the three `open`; `hid_reader` is the task of
--   `spawn_hid_reader`. Core/Maschine is `Maschine` of crates/maschine-core/src/device.rs.
-- - Ui/Font, Ui/Render and Ui/Browse: font.rs, render.rs, browse.rs and layout.rs of
--   crates/maschine-ui/src. `PixelSink` is the trait's required methods, and `sink_fill_rect`,
--   `outline_rect` and `draw_text` are the provided ones, over any state that is drawn on.
-- - Index/Watch: crates/nks-index/src/watch.rs. `watch_loop` is the loop of the thread.
-- - Index/Query and Index/Scanner: query.rs and scanner.rs of crates/nks-index/src. `statement_sql` and
--   `filters` are the statement and its arguments; `walk_stack` is the loop of `walk`, and `visit_file`
--   the closure of `Scanner::scan_root`. Index/Store is the end of `Scanner::upsert`: `store` is the
--   transaction and `Write` its statements. Index/Store/Tables says what SQLite documents of them on
--   the rows of a preset.
-- - Daemon/Session and Daemon/Manager: crates/maschined/src/session.rs. `step` is one step of a call
--   between two awaits or one turn of the read loop, and `run_steps` any interleaving of them;
--   `load_session` is `SessionManager::load` up to the call.
-- - Daemon/Osc and Daemon/Ipc: osc.rs and ipc.rs of crates/maschined/src.
-- - Daemon/Sink, Daemon/Nav, Daemon/Broadcast, Daemon/Ops and Daemon/Events:
--   crates/maschined/src/main.rs. `fb_sink` is `FbSink`; `nav_event` and `handle_nav_event` are the match
--   and the whole of `handle_nav_event`; `handle_uds_op`, `load_preset` and `repaint` have their names.
--   Daemon/Tasks puts the tasks together: `Step` is what one of them does between two waits, and `Reach`
--   any interleaving of such steps.
-- - The files named Tests: runs at concrete inputs.
--
-- Numbers: a byte or word is a natural number, and the wrap-around of its width is written out where
-- the source has it. Loops recurse on the list or the count that the source loops over. The two while
-- loops of `DirtyTracker::runs` recurse on fuel, 30 for a row, since each turn moves a column on,
-- and the chunk loop of `read_metadata` on the length of the file, since each turn reads eight bytes.
-- The walk of the scanner recurses on fuel, one for each directory that it opens.
-- A file that is read fails at its end and nowhere else. The frames that reach the diff task are a
-- finite list, each with what `tx.is_closed()` answers after it; a send to a closed channel is dropped
-- by the source and changes no state.
--
-- Not modelled: the wire structures of the driver extension, which no code reads yet, the library
-- locations of crates/nks-index and the opening of its database, what `main` of crates/maschined opens
-- before its first repaint and the signals that end it, and msctl; vendor/nusb is a third-party library,
-- and dext and pluginhost are C++. SQLite, JSON, OSC packets, USB transfers, processes, sockets and the
-- file system are parameters.
pub mod Prelude
pub mod Proto
pub mod Core
pub mod Nks
pub mod Registry
pub mod Index
pub mod Ui
pub mod Daemon
