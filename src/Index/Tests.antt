-- ===== src/Index/Tests.antt =====
-- Runs of the index's parts at concrete inputs.
use openmk.Prelude.{
  ℕ, ◌+◌, ◌≡◌, ◌≢◌, refl, sym, ap, ◌∙◌, Bool, true, false, Option, none, some, [], ◌∷◌, ◌==◌,
  if◌then◌else◌, Outcome, ok, err, panic, codes, digits, decimal, arith,
}
use openmk.Nks.Plid.{Str}
use openmk.Nks.Riff.{NksFile}
use openmk.Index.Query.{
  Query, filters, statement_sql, add_type, add_text, add_vendor, add_filter, new_statement,
  where_part, limit_part,
}
use openmk.Index.Query.Placeholders.{numbered, arguments, columns, filters_lem}
use openmk.Index.Scanner.{
  ReadDir, entries, permission_denied, walk_root, unchanged, index_file, upsert, scan_root,
  ScanStats,
}
use openmk.Index.Scanner.Visits.{
  Below, denied, listed, nothing, file, directory, total, walk_root-measure,
}
use openmk.Index.Scanner.Stats.{is_preset, scan_root_lem}

abbrev query : Query
query = record {
  text = some (codes "bell");
  vendor = some (codes "NI");
  type_filter = none;
  limit = some 50;
}

query_sql :
    statement_sql query
    ≡ codes
        "SELECT DISTINCT p.id, p.path, p.name, p.vendor, p.plugin_ref, p.bank_chain FROM presets p JOIN presets_fts f ON f.rowid = p.id WHERE presets_fts MATCH ?1 AND p.vendor = ?2 ORDER BY p.name COLLATE NOCASE LIMIT 50"
unfolding statement_sql filters add_type add_text add_vendor add_filter new_statement where_part
    limit_part decimal digits
query_sql = refl

filters_lem_example :
    ((filters query).where_clauses ≡ numbered 1 (columns query))
    × ((filters query).args ≡ arguments (columns query))
filters_lem_example = filters_lem query

-- Directory 0 has file 10, directory 1 and file 11; directory 1 may not be read.
abbrev read_dir : ℕ → ReadDir ℕ Str
read_dir p =
    if p == 0 then entries ((10, false) ∷ (1, true) ∷ (11, false) ∷ []) else permission_denied

tree : Below read_dir 0 2 (10 ∷ 11 ∷ [])
tree = listed 0 ((10, false) ∷ (1, true) ∷ (11, false) ∷ []) 1 (10 ∷ 11 ∷ []) refl (
    file 10 ((1, true) ∷ (11, false) ∷ []) 1 (11 ∷ [])
      (directory 1 ((11, false) ∷ []) 1 0 [] (11 ∷ []) (denied 1 refl) (file 11 [] 0 [] nothing)))

walk_root-measure_example :
    (s' : ℕ) × (walk_root read_dir (λ p s. s + p) (λ p. true) 2 0 5 ≡ ok s')
    × (s' ≡ 5 + total (λ p. p) (10 ∷ 11 ∷ []))
    × Unit {0}
walk_root-measure_example =
    walk_root-measure read_dir (λ p s. s + p) (λ p. p) (λ s. s) (λ p s. refl) (λ s. Unit {0})
      (λ p s u. tt) (λ p. true) 2 0 2 (10 ∷ 11 ∷ []) 5 refl tree (omega arith) tt

abbrev metadata : ℕ → Outcome Str (ℕ × ℕ)
metadata p = ok (p, 100)

abbrev query_row : ℕ → ℕ → Option (ℕ × ℕ)
query_row db p = if p == 10 then some (10, 100) else none

abbrev scan_file : ℕ → Outcome Str (NksFile ℕ)
scan_file p = err (codes "not an NKS file")

abbrev store : ℕ → NksFile ℕ → Str → ℕ → ℕ → ℕ → Outcome Str ℕ
store p nks key mtime size db = ok (db + 1)

abbrev extension : ℕ → Option Str
extension p = some (codes "nksf")

-- Whether a call returns.
returns : Outcome Str (Bool × ℕ) → Bool
returns panic = false
returns _ = true

if_returns :
    (b : Bool) (x y : Outcome Str (Bool × ℕ))
    → returns x ≡ true
    → returns y ≡ true
    → returns (if b then x else y) ≡ true
if_returns true x y p q = p
if_returns false x y p q = q

upsert-returns : (p db : ℕ) → returns (upsert metadata query_row scan_file store p db) ≡ true
unfolding upsert index_file returns
upsert-returns p db =
    if_returns (unchanged (query_row db p) p 100) (ok (false, db)) (err (codes "not an NKS file"))
      refl refl

no_panic : (p db : ℕ) → upsert metadata query_row scan_file store p db ≢ panic
unfolding returns
no_panic p db e = let h : true ≡ false = sym (upsert-returns p db) ∙ ap returns e in ground arith

scan_root_lem_example :
    (r : ℕ × ScanStats) × (scan_root metadata query_row scan_file store extension read_dir
        (λ p. true)
        2
        0
        0
      ≡ ok r)
    × (r.1.seen ≡ total (λ p. is_preset (extension p)) (10 ∷ 11 ∷ []))
    × (r.1.added + r.1.updated + r.1.failed ≡ r.1.seen)
    × (r.1.skipped ≡ 0)
scan_root_lem_example =
    scan_root_lem metadata query_row scan_file store extension no_panic read_dir (λ p. true) 2 0 2
      (10 ∷ 11 ∷ []) 0 refl tree (omega arith)
