-- ===== src/Index/Store/Tables.antt =====
-- What a database promises of the statements that the index executes, on the tables of schema.sql.
use openmk.Prelude.{
  ℕ, ◌≡◌, Bool, true, false, ◌||◌, ◌==◌, Option, some, List, [], ◌∷◌, ◌++◌, if◌then◌else◌, ok, err,
}
use openmk.Nks.Plid.{Str}
use openmk.Index.Store.{
  Columns, Write, insert_preset, delete_types, delete_modes, insert_type, insert_mode, delete_fts,
  insert_fts, Connection,
}

-- What is read of a database: the id of the preset with a path, if there is one, the types and the modes of
-- a preset in the order of their rows, and whether its text is in the full-text table.
pub record Views (Db : Type 0) : Type 0 where
  pub row_id : Str → Db → Option ℕ
  pub types_of : ℕ → Db → List (Str × Str)
  pub modes_of : ℕ → Db → List Str
  pub has_text : ℕ → Db → Bool

module _ {Db : Type 0} (v : Views Db) where
  -- The rows of preset `j` after a statement.
  abbrev pub types_after : Write ℕ → ℕ → List (Str × Str) → List (Str × Str)
  types_after (insert_preset p c r s m) j rows = rows
  types_after (delete_types i) j rows = if i == j then [] else rows
  types_after (delete_modes i) j rows = rows
  types_after (insert_type i t u) j rows = if i == j then rows ++ (t, u) ∷ [] else rows
  types_after (insert_mode i m) j rows = rows
  types_after (delete_fts i) j rows = rows
  types_after (insert_fts i c) j rows = rows

  abbrev pub modes_after : Write ℕ → ℕ → List Str → List Str
  modes_after (insert_preset p c r s m) j rows = rows
  modes_after (delete_types i) j rows = rows
  modes_after (delete_modes i) j rows = if i == j then [] else rows
  modes_after (insert_type i t u) j rows = rows
  modes_after (insert_mode i m) j rows = if i == j then rows ++ m ∷ [] else rows
  modes_after (delete_fts i) j rows = rows
  modes_after (insert_fts i c) j rows = rows

  abbrev pub text_after : Write ℕ → ℕ → Bool → Bool
  text_after (insert_preset p c r s m) j has = has
  text_after (delete_types i) j has = has
  text_after (delete_modes i) j has = has
  text_after (insert_type i t u) j has = has
  text_after (insert_mode i m) j has = has
  text_after (delete_fts i) j has = has
  text_after (insert_fts i c) j has = (i == j) || has

  -- An id is that of a preset.
  abbrev pub IsRow : ℕ → Db → Type 0
  IsRow i db = (p : Str) × (v.row_id p db ≡ some i)

  -- Only presets have texts in the full-text table.
  abbrev pub TextsAreRows : Db → Type 0
  TextsAreRows db = (i : ℕ) → v.has_text i db ≡ true → IsRow i db

  -- The preset with a path, if there is one, has no text.
  abbrev pub IsUntexted : Str → Db → Type 0
  IsUntexted p db = (i : ℕ) → v.row_id p db ≡ some i → v.has_text i db ≡ false

  -- What the schema asks of a statement: a type or a mode refers to a preset, and of a full-text table
  -- without content no text is deleted and none is inserted twice.
  abbrev pub IsAllowed : Write ℕ → Db → Type 0
  IsAllowed (insert_preset p c r s m) db = Unit
  IsAllowed (delete_types i) db = Unit
  IsAllowed (delete_modes i) db = Unit
  IsAllowed (insert_type i t u) db = IsRow i db
  IsAllowed (insert_mode i m) db = IsRow i db
  IsAllowed (delete_fts i) db = v.has_text i db ≡ false
  IsAllowed (insert_fts i c) db = v.has_text i db ≡ false

  -- The presets that there were keep their ids.
  abbrev pub KeepsIds : Db → Db → Type 0
  KeepsIds db db' = (p : Str) (i : ℕ) → v.row_id p db ≡ some i → v.row_id p db' ≡ some i

  abbrev pub Follows : Write ℕ → Db → Db → Type 0
  Follows w db db' =
      ((j : ℕ) → v.types_of j db' ≡ types_after w j (v.types_of j db))
      × ((j : ℕ) → v.modes_of j db' ≡ modes_after w j (v.modes_of j db))
      × ((j : ℕ) → v.has_text j db' ≡ text_after w j (v.has_text j db))
      × KeepsIds db db'

  abbrev pub Keeps : Db → Db → Type 0
  Keeps db db' =
      ((j : ℕ) → v.types_of j db' ≡ v.types_of j db)
      × ((j : ℕ) → v.modes_of j db' ≡ v.modes_of j db)
      × ((j : ℕ) → v.has_text j db' ≡ v.has_text j db)
      × ((p : Str) → v.row_id p db' ≡ v.row_id p db)

-- The statements do what SQLite documents of them, and on a sound disk and with ids left none fails that the schema allows:
-- presets keep their ids; the id of an inserted path is that of no preset, or it was the path's before; the SELECT finds the id of a path; and the DELETE of a text that a full-text table without
-- content has fails.
pub record IsSqlite {Db Error : Type 0} (conn : Connection Db ℕ Error) (v : Views Db) : Type 0 where
  pub begins : (db : Db) → (tx : Db) × (conn.transaction db ≡ ok tx) × Keeps v db tx
  pub commits : (tx : Db) → (db : Db) × (conn.commit tx ≡ ok db) × Keeps v tx db
  pub executes :
      (w : Write ℕ) (db : Db)
      → IsAllowed v w db
      → (db' : Db) × (conn.execute w db ≡ ok db') × Follows v w db db'
  pub refuses :
      (i : ℕ) (db : Db)
      → v.has_text i db ≡ true
      → (e : Error) × (conn.execute (delete_fts i) db ≡ err e)
  pub inserts :
      (p : Str) (c : Columns) (r : Str) (s m : ℕ) (db db' : Db)
      → conn.execute (insert_preset p c r s m) db ≡ ok db'
      → (i : ℕ) × (v.row_id p db' ≡ some i) × (IsRow v i db → v.row_id p db ≡ some i)
  pub finds : (p : Str) (i : ℕ) (db : Db) → v.row_id p db ≡ some i → conn.preset_id p db ≡ ok i
