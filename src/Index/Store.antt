-- ===== src/Index/Store.antt =====
-- crates/nks-index/src/scanner.rs: the transaction that writes a preset. SQLite is a parameter; what is
-- given back when the transaction fails is its error, and the database is rolled back.
pub mod Tables
pub mod Tags
pub mod Reindex
pub mod Tests
use openmk.Prelude.{
  ℕ, Option, none, some, List, [], ◌∷◌, ◌++◌, Outcome, ok, err, ◌>>=◌, codes, join,
}
use openmk.Nks.Plid.{Str}
use openmk.Nks.Riff.{NksFile}

-- crates/nks-parse/src/nisi.rs
pub record NksSummary : Type 0 where
  pub author : Option Str
  pub vendor : Option Str
  pub comment : Option Str
  pub name : Option Str
  pub bankchain : Option (List Str)
  pub types : Option (List (List Str))
  pub modes : Option (List Str)
  pub device_type : Option Str
  pub uuid : Option Str

-- The columns that both the preset and its text have.
pub record Columns : Type 0 where
  pub name : Str
  pub vendor : Str
  pub author : Str
  pub comment : Str
  pub bank_chain : Str

-- The statements with their arguments, in the order of the source: INSERT INTO presets with its ON
-- CONFLICT part (path, columns, plugin_ref, size, mtime_ns), the DELETE of types and of modes, the INSERT of
-- a type and of a mode, the DELETE and the INSERT of the text.
pub data Write (RowId : Type 0) : Type 0 where
  insert_preset : Str → Columns → Str → ℕ → ℕ → Write RowId
  delete_types : RowId → Write RowId
  delete_modes : RowId → Write RowId
  insert_type : RowId → Str → Str → Write RowId
  insert_mode : RowId → Str → Write RowId
  delete_fts : RowId → Write RowId
  insert_fts : RowId → Columns → Write RowId

-- `transaction`, `execute`, the SELECT of the id of a path, and `commit`.
pub record Connection (Db RowId Error : Type 0) : Type 0 where
  pub transaction : Db → Outcome Error Db
  pub execute : Write RowId → Db → Outcome Error Db
  pub preset_id : Str → Db → Outcome Error RowId
  pub commit : Db → Outcome Error Db

-- `as_deref().unwrap_or("")`, `first().cloned().unwrap_or_default()`
abbrev pub or_blank : Option Str → Str
or_blank none = []
or_blank (some s) = s

abbrev pub or_nil : {A : Type 0} → Option (List A) → List A
or_nil none = []
or_nil (some xs) = xs

abbrev pub first : List Str → Option Str
first [] = none
first (s ∷ ss) = some s

abbrev pub second : List Str → Option Str
second [] = none
second (s ∷ ss) = first ss

unfoldable pub columns_of : NksSummary → Columns
columns_of s = record {
  name = or_blank s.name;
  vendor = or_blank s.vendor;
  author = or_blank s.author;
  comment = or_blank s.comment;
  bank_chain = join (codes " / ") (or_nil s.bankchain);
}

module _ {Db RowId Error : Type 0} (conn : Connection Db RowId Error) where
  -- The loop over the types.
  unfoldable pub insert_types : RowId → List (List Str) → Db → Outcome Error Db
  insert_types id [] tx = ok tx
  insert_types id (pair ∷ types) tx = do
    tx₁ ← conn.execute (insert_type id (or_blank (first pair)) (or_blank (second pair))) tx
    insert_types id types tx₁

  -- The loop over the modes.
  unfoldable pub insert_modes : RowId → List Str → Db → Outcome Error Db
  insert_modes id [] tx = ok tx
  insert_modes id (m ∷ modes) tx = do
    tx₁ ← conn.execute (insert_mode id m) tx
    insert_modes id modes tx₁

  -- The types and the modes are written anew.
  unfoldable pub write_tags : RowId → NksSummary → Db → Outcome Error Db
  write_tags id summary tx = do
    tx₁ ← conn.execute (delete_types id) tx
    tx₂ ← conn.execute (delete_modes id) tx₁
    tx₃ ← insert_types id (or_nil summary.types) tx₂
    insert_modes id (or_nil summary.modes) tx₃

  -- The text is written anew.
  unfoldable pub write_text : RowId → Columns → Db → Outcome Error Db
  write_text id columns tx = do
    tx₁ ← conn.execute (delete_fts id) tx
    conn.execute (insert_fts id columns) tx₁

  -- `upsert` from the start of the transaction on.
  unfoldable pub store : Str → NksFile NksSummary → Str → ℕ → ℕ → Db → Outcome Error Db
  store path nks plugin_key mtime_ns size db = do
    tx ← conn.transaction db
    tx₁ ← conn.execute (insert_preset path (columns_of nks.summary) plugin_key size mtime_ns) tx
    id ← conn.preset_id path tx₁
    tx₂ ← write_tags id nks.summary tx₁
    tx₃ ← write_text id (columns_of nks.summary) tx₂
    conn.commit tx₃
