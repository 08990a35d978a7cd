-- ===== src/Daemon/Manager.antt =====
-- crates/maschined/src/session.rs: the sessions of the loaded bundles. A session is its number in the
-- order of the spawned hosts.
pub mod Sharing
use openmk.Prelude.{
  ℕ, suc, ◌+◌, Bool, Option, none, some, List, [], ◌∷◌, map_get, map_insert, if◌then◌else◌, codes,
}
use openmk.Nks.Plid.{Str}
use openmk.Daemon.Session.{Action, begins}

pub record SessionManager (PathBuf : Type 0) : Type 0 where
  pub by_bundle : List (PathBuf × ℕ)
  pub spawned : ℕ

-- `same_path` is the equality of paths.
module _ {PathBuf : Type 0} (same_path : PathBuf → PathBuf → Bool) where
  unfoldable pub SessionManager_new : SessionManager PathBuf
  SessionManager_new = record { by_bundle = []; spawned = 0 }

  -- A new session, if the host starts.
  unfoldable pub spawn_session :
      Bool → PathBuf → SessionManager PathBuf → Option ℕ × SessionManager PathBuf
  spawn_session starts bundle m =
      if starts
      then (
        some m.spawned,
        record {
          by_bundle = map_insert same_path bundle m.spawned m.by_bundle;
          spawned = m.spawned + 1;
        },
      )
      else (none, m)

  unfoldable pub found_session :
      Option ℕ → Bool → PathBuf → SessionManager PathBuf → Option ℕ × SessionManager PathBuf
  found_session none starts bundle m = spawn_session starts bundle m
  found_session (some s) starts bundle m = (some s, m)

  -- `load` up to the call: the session, if there is one now.
  unfoldable pub load_session :
      Bool → PathBuf → SessionManager PathBuf → Option ℕ × SessionManager PathBuf
  load_session starts bundle m =
      found_session (map_get same_path bundle m.by_bundle) starts bundle m

  -- The call that `load` makes, on the session it has.
  unfoldable pub load_call :
      {Value : Type 0} → (PathBuf → Str → Value) → PathBuf → Str → Action Value
  load_call json bundle state_base64 = begins (codes "load") (json bundle state_base64)

  -- The session that `midi` calls; `none` is its error.
  unfoldable pub midi_session : PathBuf → SessionManager PathBuf → Option ℕ
  midi_session bundle m = map_get same_path bundle m.by_bundle

  unfoldable pub midi_call : {Value : Type 0} → (ℕ → ℕ → ℕ → Value) → ℕ → ℕ → ℕ → Action Value
  midi_call json status data1 data2 = begins (codes "midi") (json status data1 data2)
