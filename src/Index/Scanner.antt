-- ===== src/Index/Scanner.antt =====
-- crates/nks-index/src/scanner.rs: the walk over a library, its statistics, and when a file is indexed
-- anew. The file system and the database are parameters.
pub mod Visits
pub mod Stats
use openmk.Prelude.{
  ℕ, zero, suc, ◌+◌, Bool, true, false, ◌&&◌, Option, none, some, List, [], ◌∷◌, ◌++◌, ◌==◌,
  if◌then◌else◌, Outcome, ok, err, panic, ◌>>=◌, map_ok, codes, join,
}
use openmk.Nks.Plid.{Str, NksPluginId, vst3, vst2, audio_unit, unknown}
use openmk.Nks.Riff.{NksFile, same_bytes}
use openmk.Registry.{hex8}

pub record ScanStats : Type 0 where
  pub seen : ℕ
  pub added : ℕ
  pub updated : ℕ
  pub skipped : ℕ
  pub failed : ℕ

unfoldable pub ScanStats_default : ScanStats
ScanStats_default = record { seen = 0; added = 0; updated = 0; skipped = 0; failed = 0 }

-- What `read_dir` returns: the entries that can be read, with whether each is a directory.
pub data ReadDir {ℓ} (PathBuf : Type 0) (Error : Type ℓ) : Type ℓ where
  entries : List (PathBuf × Bool) → ReadDir PathBuf Error
  permission_denied : ReadDir PathBuf Error
  other_error : Error → ReadDir PathBuf Error

module _ {ℓ κ} {PathBuf : Type 0} {Error : Type ℓ} {State : Type κ}
    (read_dir : PathBuf → ReadDir PathBuf Error) (visit : PathBuf → State → State) where
  -- The loop over the entries of a directory: the new stack, top first, and the visitor's state.
  unfoldable pub enter : List (PathBuf × Bool) → List PathBuf → State → List PathBuf × State
  enter [] stack s = (stack, s)
  enter ((p, true) ∷ es) stack s = enter es (p ∷ stack) s
  enter ((p, false) ∷ es) stack s = enter es stack (visit p s)

  -- A directory that is taken from the stack; `next` is the rest of the walk.
  unfoldable pub open_dir :
      (List PathBuf → State → Outcome Error State)
      → ReadDir PathBuf Error
      → List PathBuf
      → State
      → Outcome Error State
  open_dir next (entries es) stack s = let (stack₁, s₁) = enter es stack s in next stack₁ s₁
  open_dir next permission_denied stack s = next stack s
  open_dir next (other_error e) stack s = err e

  -- The loop over the stack; it panics when the fuel is used up.
  unfoldable pub walk_stack : ℕ → List PathBuf → State → Outcome Error State
  walk_stack fuel [] s = ok s
  walk_stack zero (dir ∷ stack) s = panic
  walk_stack (suc fuel) (dir ∷ stack) s = open_dir (walk_stack fuel) (read_dir dir) stack s

  unfoldable pub walk_root : (PathBuf → Bool) → ℕ → PathBuf → State → Outcome Error State
  walk_root exists fuel root s = if exists root then walk_stack fuel (root ∷ []) s else ok s

unfoldable pub plugin_key : NksPluginId → Str
plugin_key (vst3 (a ∷ b ∷ c ∷ d ∷ []) name) =
    codes "vst3:" ++ (hex8 a ++ (hex8 b ++ (hex8 c ++ hex8 d)))
plugin_key (vst3 _ name) = codes "unknown"
plugin_key (audio_unit ty subtype manufacturer name) =
    codes "au:" ++ (hex8 ty ++ (codes ":" ++ (hex8 subtype ++ (codes ":" ++ hex8 manufacturer))))
plugin_key (vst2 magic) = codes "vst2:" ++ hex8 magic
plugin_key unknown = codes "unknown"

-- Whether an extension is `nksf`.
abbrev pub is_nksf : Option Str → Bool
is_nksf none = false
is_nksf (some s) = same_bytes s (codes "nksf")

-- `existing` has the time and the size.
abbrev pub unchanged : Option (ℕ × ℕ) → ℕ → ℕ → Bool
unchanged none mtime_ns size = false
unchanged (some (prev_mtime, prev_size)) mtime_ns size =
    (prev_mtime == mtime_ns) && (prev_size == size)

-- `metadata` gives the time and the size of a file, `query_row` those in the index, `scan_file` is
-- `NksFile::scan`, and `store` the transaction that writes a preset and commits.
module _ {ℓ} {PathBuf Db Summary : Type 0} {Error : Type ℓ}
    (metadata : PathBuf → Outcome Error (ℕ × ℕ)) (query_row : Db → PathBuf → Option (ℕ × ℕ))
    (scan_file : PathBuf → Outcome Error (NksFile Summary))
    (store : PathBuf → NksFile Summary → Str → ℕ → ℕ → Db → Outcome Error Db) where
  -- The file is parsed and stored.
  unfoldable pub index_file : PathBuf → ℕ → ℕ → Db → Outcome Error (Bool × Db)
  index_file path mtime_ns size db = do
    nks ← scan_file path
    db₁ ← store path nks (plugin_key nks.plugin) mtime_ns size db
    ok (true, db₁)

  unfoldable pub upsert : PathBuf → Db → Outcome Error (Bool × Db)
  upsert path db = do
    (mtime_ns, size) ← metadata path
    if unchanged (query_row db path) mtime_ns size
        then ok (false, db)
        else index_file path mtime_ns size db

  -- The match on the result; a failed `upsert` leaves the database.
  unfoldable pub count_result : Outcome Error (Bool × Db) → Db × ScanStats → Db × ScanStats
  count_result (ok (true, db₁)) (db, st) = (db₁, record st { added = st.added + 1 })
  count_result (ok (false, db₁)) (db, st) = (db₁, record st { updated = st.updated + 1 })
  count_result (err e) (db, st) = (db, record st { failed = st.failed + 1 })
  count_result panic s = s

  -- The closure that the walk calls; `extension` is the text of the path's extension.
  unfoldable pub visit_file : (PathBuf → Option Str) → PathBuf → Db × ScanStats → Db × ScanStats
  visit_file extension p (db, st) =
      if is_nksf (extension p)
      then count_result (upsert p db) (db, record st { seen = st.seen + 1 })
      else (db, st)

  unfoldable pub scan_root :
      (PathBuf → Option Str)
      → (PathBuf → ReadDir PathBuf Error)
      → (PathBuf → Bool)
      → ℕ
      → PathBuf
      → Db
      → Outcome Error (Db × ScanStats)
  scan_root extension read_dir exists fuel root db =
      walk_root read_dir (visit_file extension) exists fuel root (db, ScanStats_default)
