-- ===== src/Index/Query.antt =====
-- crates/nks-index/src/query.rs: the query and the SQL statement with its arguments. Text is a list of
-- character codes.
pub mod Placeholders
use openmk.Prelude.{
  ℕ, ◌+◌, ℤ, Option, none, some, List, [], ◌∷◌, ◌++◌, Outcome, map_ok, ◌>>=◌, codes, decimal, join,
}
use openmk.Nks.Plid.{Str}

pub record Query : Type 0 where
  pub text : Option Str
  pub vendor : Option Str
  pub type_filter : Option Str
  pub limit : Option ℕ

unfoldable pub Query_default : Query
Query_default = record { text = none; vendor = none; type_filter = none; limit = none }

pub record PresetRow : Type 0 where
  pub id : ℤ
  pub path : Str
  pub name : Str
  pub vendor : Str
  pub plugin_ref : Str
  pub bank_chain : Str

-- The variables of `run`.
pub record Statement : Type 0 where
  pub sql : Str
  pub where_clauses : List Str
  pub args : List Str
  pub arg_i : ℕ

abbrev pub select : Str
select =
    codes
      "SELECT DISTINCT p.id, p.path, p.name, p.vendor, p.plugin_ref, p.bank_chain FROM presets p"

unfoldable pub new_statement : Statement
new_statement = record { sql = select; where_clauses = []; args = []; arg_i = 1 }

-- The three statements that a filter runs: the join, the clause and the argument.
unfoldable pub add_filter : Str → Str → Str → Statement → Statement
add_filter joined clause arg s = record {
  sql = s.sql ++ joined;
  where_clauses = s.where_clauses ++ ((clause ++ decimal s.arg_i) ∷ []);
  args = s.args ++ (arg ∷ []);
  arg_i = s.arg_i + 1;
}

unfoldable pub add_type : Option Str → Statement → Statement
add_type none s = s
add_type (some t) s =
    add_filter (codes " JOIN preset_types pt ON pt.preset_id = p.id") (codes "pt.type = ?") t s

unfoldable pub add_text : Option Str → Statement → Statement
add_text none s = s
add_text (some []) s = s
add_text (some (c ∷ text)) s =
    add_filter (codes " JOIN presets_fts f ON f.rowid = p.id") (codes "presets_fts MATCH ?")
      (c ∷ text) s

-- `arg_i` stays.
unfoldable pub add_vendor : Option Str → Statement → Statement
add_vendor none s = s
add_vendor (some v) s = record s {
  where_clauses = s.where_clauses ++ ((codes "p.vendor = ?" ++ decimal s.arg_i) ∷ []);
  args = s.args ++ (v ∷ []);
}

unfoldable pub where_part : List Str → Str
where_part [] = []
where_part (c ∷ clauses) = codes " WHERE " ++ join (codes " AND ") (c ∷ clauses)

unfoldable pub limit_part : Option ℕ → Str
limit_part none = []
limit_part (some lim) = codes " LIMIT " ++ decimal lim

unfoldable pub filters : Query → Statement
filters q = add_vendor q.vendor (add_text q.text (add_type q.type_filter new_statement))

unfoldable pub statement_sql : Query → Str
statement_sql q =
    (filters q).sql
    ++ (where_part (filters q).where_clauses
        ++ (codes " ORDER BY p.name COLLATE NOCASE" ++ limit_part q.limit))

-- The loop over the rows: the first that fails ends it.
unfoldable pub collect_rows {ℓ} :
    {E : Type ℓ} → List (Outcome E PresetRow) → Outcome E (List PresetRow)
collect_rows [] = Outcome.ok []
collect_rows (row ∷ rows) = row >>= λ r. map_ok (◌∷◌ r) (collect_rows rows)

-- `run` on a database that answers a statement and its arguments.
unfoldable pub run {ℓ} :
    {E : Type ℓ}
    → (Str → List Str → Outcome E (List (Outcome E PresetRow)))
    → Query
    → Outcome E (List PresetRow)
run query_map q = query_map (statement_sql q) (filters q).args >>= collect_rows
