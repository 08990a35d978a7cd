-- ===== src/Daemon/Ops.antt =====
-- crates/maschined/src/main.rs: the requests that msctl sends, and the loading of a preset. The file
-- system, the database and the plug-in host are parameters.
pub mod Effects
use openmk.Prelude.{
  ℕ, zero, suc, ◌+◌, ℤ, pos, negsuc, Bool, true, false, Option, none, some, List, [], ◌∷◌, ◌++◌,
  length, ◌==◌, if◌then◌else◌, Outcome, ok, err, panic, ◌>>=◌, map_ok, codes,
}
use openmk.Nks.Plid.{Str, RawPlid, NksPluginId}
use openmk.Nks.Riff.{NksError, NksFile, read_metadata, unexpected_eof}
use openmk.Nks.Riff.State.{read_state}
use openmk.Registry.{
  Registry, PluginEntry, vst3_entry, audio_unit_entry, Vst3Plugin, AuPlugin, resolve, registry_len,
}
use openmk.Index.Query.{PresetRow, Query, Query_default, run}
use openmk.Index.Scanner.{ScanStats}
use openmk.Core.Display.Scheduler.{DisplayHandle}
use openmk.Ui.Browse.{BrowseState, BrowseState_default, set_rows}
use openmk.Daemon.Nav.{repaint}
use openmk.Daemon.Manager.{SessionManager, load_session}
use openmk.Daemon.Ipc.{Op, status, scan_libraries, browse, load, BrowseArgs, Reply}

-- Why a preset is not loaded.
pub data LoadError : Type 0 where
  nks_error : NksError → LoadError
  no_plugin : NksPluginId → LoadError
  -- the name of the audio unit
  au_unsupported : Str → LoadError
  no_session : LoadError
  no_reply : LoadError

-- What a reply carries: the numbers of plug-ins and of rows, of changed presets, rows, the body of the
-- host's reply with the bundle, or an error.
pub data Payload (Value Error : Type 0) : Type 0 where
  status_payload : ℕ → ℕ → Payload Value Error
  presets_changed : ℕ → Payload Value Error
  preset_rows : List PresetRow → Payload Value Error
  loaded : Str → Value → Payload Value Error
  db_error : Error → Payload Value Error
  load_error : LoadError → Payload Value Error
  not_in_view : Payload Value Error

pub record App : Type 0 where
  pub browser : BrowseState
  pub registry : Registry
  pub sessions : SessionManager Str
  pub left : DisplayHandle
  pub right : DisplayHandle

abbrev pub same_int : ℤ → ℤ → Bool
same_int (pos a) (pos b) = a == b
same_int (negsuc a) (negsuc b) = a == b
same_int _ _ = false

-- `browse.rows.iter().find(|r| r.id == preset_id)`
unfoldable pub find_row : ℤ → List PresetRow → Option PresetRow
find_row preset_id [] = none
find_row preset_id (r ∷ rows) = if same_int r.id preset_id then some r else find_row preset_id rows

abbrev pub or_error {ℓ} : {A : Type ℓ} {E : Type 0} → E → Option A → Outcome E A
or_error e none = err e
or_error e (some a) = ok a

abbrev pub nks_result : {A : Type 0} → Outcome NksError A → Outcome LoadError A
nks_result (ok a) = ok a
nks_result (err e) = err (nks_error e)
nks_result panic = panic

unfoldable pub entry_bundle : PluginEntry → Outcome LoadError Str
entry_bundle (vst3_entry v) = ok v.bundle
entry_bundle (audio_unit_entry a) = err (au_unsupported a.name)

-- `args.limit.or(Some(100))`
abbrev pub limit_or_100 : Option ℕ → Option ℕ
limit_or_100 none = some 100
limit_or_100 (some n) = some n

unfoldable pub browse_query : BrowseArgs → Query
browse_query args = record {
  text = args.text;
  vendor = args.vendor;
  type_filter = args.type;
  limit = limit_or_100 args.limit;
}

-- The facet values at the start.
unfoldable pub initial_state : BrowseState
initial_state = record BrowseState_default {
  facet_values =
      codes "Synth"
      ∷ codes "Bass"
      ∷ codes "Lead"
      ∷ codes "Pad"
      ∷ codes "Keys"
      ∷ codes "Drums"
      ∷ codes "Percussion"
      ∷ codes "FX"
      ∷ [];
}

-- The rows of the first query, if it succeeds.
unfoldable pub populate :
    {Error : Type 0} → Outcome Error (List PresetRow) → BrowseState → BrowseState
populate (ok rows) b = set_rows rows b
populate _ b = b

unfoldable pub first_query : Query
first_query = record Query_default { limit = some 50 }

-- The loop over the roots: what is scanned counts, a failed scan does not.
unfoldable pub count_changed : {Error : Type 0} → List (Outcome Error ScanStats) → ℕ
count_changed [] = 0
count_changed (ok st ∷ results) = st.added + st.updated + count_changed results
count_changed (_ ∷ results) = count_changed results

-- The new rows are shown on both displays.
unfoldable pub show_rows : List PresetRow → App → App
show_rows rows app =
    let b = set_rows rows app.browser in
    let (l, r) = repaint app.left app.right b in record app { browser = b; left = l; right = r }

module _ {Value Error : Type 0} where
  unfoldable pub status_reply : App → Reply (Payload Value Error)
  status_reply app = record {
    ok = true;
    payload = status_payload (registry_len app.registry) (length app.browser.rows);
  }

  unfoldable pub browse_reply :
      Outcome Error (List PresetRow) → App → Outcome Error (Reply (Payload Value Error) × App)
  browse_reply (ok rows) app =
      ok (record { ok = true; payload = preset_rows rows }, show_rows rows app)
  browse_reply (err e) app = ok (record { ok = false; payload = db_error e }, app)
  browse_reply panic app = panic

  unfoldable pub load_reply :
      Outcome LoadError (Str × Value) → Outcome Error (Reply (Payload Value Error))
  load_reply (ok (bundle, body)) = ok (record { ok = true; payload = loaded bundle body })
  load_reply (err e) = ok (record { ok = false; payload = load_error e })
  load_reply panic = panic

-- `read_file` gives the bytes of a file, `starts` is whether a host can be spawned, and `host_load` is
-- the body of a session's reply to the `load` of a bundle and a state.
module _ {Summary Value : Type 0} (decode_summary : List ℕ → Option Summary)
    (decode_plid : List ℕ → Option RawPlid) (encode_base64 : List ℕ → Str)
    (same_path : Str → Str → Bool) (read_file : Str → Outcome NksError (List ℕ)) (starts : Bool)
    (host_load : ℕ → Str → Str → Option Value) where
  unfoldable pub load_on_session :
      Str
      → Str
      → Option ℕ × SessionManager Str
      → Outcome LoadError (Str × Value) × SessionManager Str
  load_on_session bundle state_b64 (none, m) = (err no_session, m)
  load_on_session bundle state_b64 (some s, m) =
      (map_ok (λ body. (bundle, body)) (or_error no_reply (host_load s bundle state_b64)), m)

  -- `load_preset` up to the session: the bundle and the encoded state.
  unfoldable pub prepare_load : Registry → Str → Outcome LoadError (Str × Str)
  prepare_load registry path = do
    bytes ← nks_result (read_file path)
    nks ← nks_result (read_metadata decode_summary decode_plid bytes)
    entry ← or_error (no_plugin nks.plugin) (resolve registry nks.plugin)
    bundle ← entry_bundle entry
    state ← nks_result (read_state nks bytes)
    ok (bundle, encode_base64 state)

  unfoldable pub load_prepared :
      Outcome LoadError (Str × Str)
      → SessionManager Str
      → Outcome LoadError (Str × Value) × SessionManager Str
  load_prepared (ok (bundle, state_b64)) m =
      load_on_session bundle state_b64 (load_session same_path starts bundle m)
  load_prepared (err e) m = (err e, m)
  load_prepared panic m = (panic, m)

  unfoldable pub load_preset :
      PresetRow → App → Outcome LoadError (Str × Value) × SessionManager Str
  load_preset row app = load_prepared (prepare_load app.registry row.path) app.sessions

  unfoldable pub load_found :
      {Error : Type 0} → Option PresetRow → App → Outcome Error (Reply (Payload Value Error) × App)
  load_found none app = ok (record { ok = false; payload = not_in_view }, app)
  load_found (some row) app =
      let (res, m) = load_preset row app in
      map_ok (λ r. (r, record app { sessions = m })) (load_reply res)

  -- `scans` are the results of the scans of the default roots, `open_db` whether the database opens,
  -- `query_map` its answer to a statement.
  unfoldable pub handle_uds_op :
      {Error : Type 0}
      → List (Outcome Error ScanStats)
      → Outcome Error (Unit {0})
      → (Str → List Str → Outcome Error (List (Outcome Error PresetRow)))
      → Op
      → App
      → Outcome Error (Reply (Payload Value Error) × App)
  handle_uds_op scans open_db query_map status app = ok (status_reply app, app)
  handle_uds_op scans open_db query_map scan_libraries app =
      ok (record { ok = true; payload = presets_changed (count_changed scans) }, app)
  handle_uds_op scans open_db query_map (browse args) app =
      browse_reply (open_db >>= λ _. run query_map (browse_query args)) app
  handle_uds_op scans open_db query_map (load preset_id) app =
      load_found (find_row preset_id app.browser.rows) app
